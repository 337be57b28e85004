-- ===== src/Model/Markup/Formatted/Safe.antt =====
-- The sanitised HTML is balanced, has only the allowed tags, and no attribute but a link to one of
-- four schemes.
use matrix_teams.Prelude.{
  ◌≡◌, refl, true, Option, none, some, List, [], ◌∷◌, ◌++◌, append-nil, append_assoc, if◌then◌else◌,
  is_nil, inl, inr, arith, Bool-cases, Option-cases, Text, codes, one_of, to_lower, trim_space,
  subst, text_eq, text_eq_iff, sym,
}
use matrix_teams.Go.Html.{escape_string, IsPlain, escape_string-IsPlain}
use matrix_teams.Model.Markup.{
  Node, Nodes, Attribute, text, element, other, nil, cons, allowed_formatted_tags, is_unsafe_tag,
  find_attribute, find_wrapper_div,
}
use matrix_teams.Model.Markup.Formatted.{
  safe_schemes, with_scheme, sanitize_href, extract_safe_href, href_attribute, opening, closing,
  render_formatted_node, render_formatted_nodes, fragment_of, normalize_html_fragment,
}

-- The grammar of the HTML that the bridge may hand on: texts without a rune that opens or closes a
-- tag or a quotation, line breaks, elements with an allowed tag and no attribute, and links whose
-- address is escaped and has a safe scheme.
pub data SafeHtml (scheme_of : Text → Option Text) : Text → Type 0 where
  plain : (s : Text) → IsPlain s → SafeHtml scheme_of s
  line_break : SafeHtml scheme_of (codes "<br>")
  joined : (s t : Text) → SafeHtml scheme_of s → SafeHtml scheme_of t → SafeHtml scheme_of (s ++ t)
  tagged :
      (tag s : Text)
      → one_of tag allowed_formatted_tags ≡ true
      → SafeHtml scheme_of s
      → SafeHtml scheme_of (codes "<" ++ tag ++ codes ">" ++ s ++ codes "</" ++ tag ++ codes ">")
  link :
      (href scheme s : Text)
      → scheme_of href ≡ some scheme
      → one_of (to_lower scheme) safe_schemes ≡ true
      → SafeHtml scheme_of s
      → SafeHtml scheme_of
          (codes "<a href=\"" ++ escape_string href ++ codes "\">" ++ s ++ codes "</a>")

module _ (scheme_of : Text → Option Text) where
  -- A link that is let through has a safe scheme.
  abbrev IsSafeHref : Text → Type 0
  IsSafeHref href =
      (scheme : Text) × (scheme_of href ≡ some scheme)
      × (one_of (to_lower scheme) safe_schemes ≡ true)

  with_scheme-IsSafeHref :
      (value href : Text) (o : Option Text)
      → scheme_of value ≡ o
      → with_scheme safe_schemes value o ≡ some href
      → IsSafeHref href
  unfolding with_scheme
  with_scheme-IsSafeHref value href none e h = absurd (cc)
  with_scheme-IsSafeHref value href (some scheme) e h =
      elim (Bool-cases (one_of (to_lower scheme) safe_schemes)) [
        | inl safe ↦ (scheme, ground arith, safe)
        | inr unsafe ↦ absurd (ground arith)
      ]

  sanitize_href-IsSafeHref :
      (raw href : Text) → sanitize_href scheme_of raw ≡ some href → IsSafeHref href
  unfolding sanitize_href
  sanitize_href-IsSafeHref raw href h = elim (Bool-cases (is_nil (trim_space raw))) [
    | inl e ↦ absurd (ground arith)
    | inr e ↦
        with_scheme-IsSafeHref (trim_space raw) href (scheme_of (trim_space raw)) refl
          (ground arith)
  ]

  extract_safe_href-IsSafeHref :
      (o : Option Text) (href : Text) → extract_safe_href scheme_of o ≡ some href → IsSafeHref href
  unfolding extract_safe_href
  extract_safe_href-IsSafeHref none href h = absurd (cc)
  extract_safe_href-IsSafeHref (some raw) href h = sanitize_href-IsSafeHref raw href h

  -- An element without and with a link, as the builder puts it together and as the grammar does.
  bare_regroup :
      (tag s : Text)
      → codes "<" ++ tag ++ codes ">" ++ s ++ codes "</" ++ tag ++ codes ">"
        ≡ (codes "<" ++ tag ++ [] ++ codes ">") ++ s ++ (codes "</" ++ tag ++ codes ">")
  bare_regroup tag s = simp (append-nil, append_assoc)

  link_regroup :
      (e s : Text)
      → codes "<a href=\"" ++ e ++ codes "\">" ++ s ++ codes "</a>"
        ≡ (codes "<" ++ codes "a" ++ (codes " href=\"" ++ e ++ codes "\"") ++ codes ">")
          ++ s
          ++ (codes "</" ++ codes "a" ++ codes ">")
  link_regroup e s = simp append_assoc

  tagged_text :
      (tag s : Text)
      → one_of tag allowed_formatted_tags ≡ true
      → SafeHtml scheme_of s
      → SafeHtml scheme_of ((codes "<" ++ tag ++ [] ++ codes ">") ++ s ++ closing scheme_of tag)
  unfolding closing
  tagged_text tag s allowed h =
      subst (SafeHtml scheme_of) (bare_regroup tag s) (tagged tag s allowed h)

  link_text :
      (href s : Text)
      → IsSafeHref href
      → SafeHtml scheme_of s
      → SafeHtml scheme_of (
          (codes "<" ++ codes "a" ++ href_attribute scheme_of (some href) ++ codes ">")
          ++ s
          ++ closing scheme_of (codes "a"))
  unfolding closing href_attribute
  link_text href s (scheme, found, ok) h =
      subst (SafeHtml scheme_of) (link_regroup (escape_string href) s)
        (link href scheme s found ok h)

  opened :
      (tag s : Text) (o : Option Text)
      → ((href : Text) → o ≡ some href → IsSafeHref href)
      → one_of tag allowed_formatted_tags ≡ true
      → SafeHtml scheme_of s
      → SafeHtml scheme_of (
          (codes "<"
            ++ tag
            ++ (if one_of tag (codes "a" ∷ []) then href_attribute scheme_of o else [])
            ++ codes ">")
          ++ s
          ++ closing scheme_of tag)
  unfolding one_of href_attribute
  opened tag s none safe allowed h = elim (Bool-cases (one_of tag (codes "a" ∷ []))) [
    | inl a ↦ rw a (tagged_text tag s allowed h)
    | inr a ↦ rw a (tagged_text tag s allowed h)
  ]
  opened tag s (some href) safe allowed h = elim (Bool-cases (text_eq tag (codes "a"))) [
    | inr a ↦ rw a (tagged_text tag s allowed h)
    | inl a ↦ rw a (
        subst
          (λ t. SafeHtml scheme_of (
            (codes "<" ++ t ++ href_attribute scheme_of (some href) ++ codes ">")
            ++ s
            ++ closing scheme_of t))
          (sym ((text_eq_iff tag (codes "a")).0 a)) (link_text href s (safe href refl) h))
  ]

  element-SafeHtml :
      (tag s : Text) (attributes : List Attribute)
      → one_of tag allowed_formatted_tags ≡ true
      → SafeHtml scheme_of s
      → SafeHtml scheme_of (opening scheme_of tag attributes ++ s ++ closing scheme_of tag)
  unfolding opening
  element-SafeHtml tag s attributes allowed h =
      let o = extract_safe_href scheme_of (find_attribute (codes "href") attributes) in
      opened tag s o (extract_safe_href-IsSafeHref (find_attribute (codes "href") attributes))
        allowed h

  mutual
    unfolding render_formatted_node

    node-SafeHtml : (n : Node) → SafeHtml scheme_of (render_formatted_node scheme_of n).0
    node-SafeHtml (text t) = plain (escape_string t) (escape_string-IsPlain t)
    node-SafeHtml (element name attributes children) =
        let tag = to_lower name in
        elim (Bool-cases (is_unsafe_tag tag)) [
          | inl u ↦ rw u (plain [] tt)
          | inr u ↦ elim (Bool-cases (one_of tag (codes "br" ∷ []))) [
            | inl b ↦ rw (u, b) line_break
            | inr b ↦ elim (Bool-cases (one_of tag allowed_formatted_tags)) [
              | inr a ↦ rw (u, b, a) (nodes-SafeHtml children)
              | inl a ↦
                  rw (u, b, a)
                    (element-SafeHtml tag (render_formatted_nodes scheme_of children).0 attributes a
                      (nodes-SafeHtml children))
            ]
          ]
        ]
    node-SafeHtml (other children) = nodes-SafeHtml children

    nodes-SafeHtml : (ns : Nodes) → SafeHtml scheme_of (render_formatted_nodes scheme_of ns).0
    nodes-SafeHtml nil = plain [] tt
    nodes-SafeHtml (cons n ns) = joined _ _ (node-SafeHtml n) (nodes-SafeHtml ns)

  -- A formatted body: safe HTML less the white space at its ends.
  abbrev pub IsFormatted : Text → Type 0
  IsFormatted formatted = (s : Text) × SafeHtml scheme_of s × (formatted ≡ trim_space s)

  nil-IsFormatted : IsFormatted []
  unfolding trim_space
  nil-IsFormatted = ([], plain [] tt, refl)

  fragment_of-IsFormatted :
      (o : Option Nodes) (body formatted : Text)
      → fragment_of scheme_of o ≡ some (body, formatted)
      → IsFormatted formatted
  unfolding fragment_of
  fragment_of-IsFormatted none body formatted h = absurd (cc)
  fragment_of-IsFormatted (some nodes) body formatted h =
      elim (Bool-cases (render_formatted_nodes scheme_of nodes).1) [
        | inl r ↦ ((render_formatted_nodes scheme_of nodes).0, nodes-SafeHtml nodes, ground arith)
        | inr r ↦ subst IsFormatted (ground arith) nil-IsFormatted
      ]

  -- Whatever the parser makes of a message, the HTML that comes out is, but for white space at its
  -- ends, balanced, of allowed tags only, with no attribute but links whose scheme is http, https,
  -- mailto or matrix, and with all other text escaped.
  pub normalize_html_fragment-IsFormatted :
      (parse : Text → Option Node) (value body formatted : Text)
      → normalize_html_fragment scheme_of parse value ≡ some (body, formatted)
      → IsFormatted formatted
  unfolding normalize_html_fragment
  normalize_html_fragment-IsFormatted parse value body formatted h =
      elim (Option-cases (parse (codes "<div>" ++ value ++ codes "</div>"))) [
        | inl e ↦ absurd (ground arith)
        | inr (doc, e) ↦
            fragment_of-IsFormatted (find_wrapper_div doc) body formatted (ground arith)
      ]
