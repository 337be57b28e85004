-- ===== src/Model/Markup/Gifs/Distinct.antt =====
-- What the GIFs of a message have in common.
use matrix_teams.Prelude.{
  ◌≡◌, refl, true, false, ◌||◌, Option, none, some, List, [], ◌∷◌, ◌++◌, is_some, is_nil, inl, inr,
  arith, Bool-cases, Text, codes, one_of, to_lower, equal_fold, trim_space, text_eq, text_eq_iff,
  All,
}
use matrix_teams.Model.Message.{TeamsGif}
use matrix_teams.Model.Markup.{Node, Nodes, Attribute, text, element, other, nil, cons}
use matrix_teams.Model.Markup.Gifs.{
  urls, is_safe_http_url, append_single_gif, append_from_node, append_gifs_from_images,
  visit_element, collect_gifs, collect_from_children, has_giphy_item_type, get_attr, web_schemes,
  first_non_empty,
}
use matrix_teams.Model.Markup.Formatted.{with_scheme}

-- No address stands twice.
abbrev pub IsDistinctUrls : List Text → Type 0
IsDistinctUrls [] = Unit
IsDistinctUrls (u ∷ us) = (one_of u us ≡ false) × IsDistinctUrls us

one_of_snoc : (u v : Text) (us : List Text) → one_of u (us ++ v ∷ []) ≡ (one_of u us || text_eq u v)
unfolding one_of
one_of_snoc u v [] = ground arith
one_of_snoc u v (w ∷ us) = ground (arith, one_of_snoc u v us)

text_eq_comm : (u v : Text) → text_eq u v ≡ false → text_eq v u ≡ false
text_eq_comm u v h = ground (arith, text_eq_iff u v, text_eq_iff v u)

snoc-IsDistinctUrls :
    (us : List Text) (v : Text)
    → IsDistinctUrls us
    → one_of v us ≡ false
    → IsDistinctUrls (us ++ v ∷ [])
unfolding one_of
snoc-IsDistinctUrls [] v d h = (refl, tt)
snoc-IsDistinctUrls (u ∷ us) v (fresh, d) h = (
  rw (one_of_snoc u v us) (ground (arith, text_eq_comm v u)),
  snoc-IsDistinctUrls us v d (ground arith),
)

urls-append : (gs : List TeamsGif) (g : TeamsGif) → urls (gs ++ g ∷ []) ≡ urls gs ++ g.url ∷ []
urls-append [] g = refl
urls-append (h ∷ gs) g = rw (urls-append gs g) refl

-- The last choice of a title is not empty, so none is.
title_or_gif : (a b : Text) → is_nil (first_non_empty (a ∷ b ∷ codes "GIF" ∷ [])) ≡ false
unfolding first_non_empty trim_space
title_or_gif a b = elim (Bool-cases (is_nil (trim_space a))) [
  | inr h ↦ rw h h
  | inl h ↦ elim (Bool-cases (is_nil (trim_space b))) [
    | inr k ↦ rw (h, k) k
    | inl k ↦ rw (h, k) refl
  ]
]

module _ (scheme_of : Text → Option Text) where
  -- The address has the scheme http or https.
  abbrev pub HasWebScheme : TeamsGif → Type 0
  HasWebScheme g =
      (scheme : Text) × (scheme_of (trim_space g.url) ≡ some scheme)
      × (one_of (to_lower scheme) web_schemes ≡ true)

  -- A web address and a title.
  abbrev pub IsGif : TeamsGif → Type 0
  IsGif g = HasWebScheme g × (is_nil g.title ≡ false)

  abbrev pub IsGallery : List TeamsGif → Type 0
  IsGallery gs = IsDistinctUrls (urls gs) × All IsGif gs

  with_scheme-web :
      (value : Text) (o : Option Text)
      → is_some (with_scheme web_schemes value o) ≡ true
      → (scheme : Text) × (o ≡ some scheme) × (one_of (to_lower scheme) web_schemes ≡ true)
  unfolding with_scheme
  with_scheme-web value none h = absurd (cc)
  with_scheme-web value (some scheme) h = elim (Bool-cases (one_of (to_lower scheme) web_schemes)) [
    | inl w ↦ (scheme, refl, w)
    | inr w ↦ absurd (ground arith)
  ]

  is_safe_http_url-web : (g : TeamsGif) → is_safe_http_url scheme_of g.url ≡ true → HasWebScheme g
  unfolding is_safe_http_url
  is_safe_http_url-web g h = with_scheme-web (trim_space g.url) (scheme_of (trim_space g.url)) h

  snoc-All : (gs : List TeamsGif) (g : TeamsGif) → All IsGif gs → IsGif g → All IsGif (gs ++ g ∷ [])
  snoc-All [] g hs h = (h, tt)
  snoc-All (x ∷ gs) g (k, hs) h = (k, snoc-All gs g hs h)

  append_single_gif-IsGallery :
      (attributes : List Attribute) (fallback : Text) (gs : List TeamsGif)
      → IsGallery gs
      → IsGallery (append_single_gif scheme_of attributes fallback gs)
  unfolding append_single_gif
  append_single_gif-IsGallery attributes fallback gs (d, hs) =
      let src = trim_space (get_attr (codes "src") attributes) in
      let g : TeamsGif = record {
        title = first_non_empty (
            trim_space (get_attr (codes "alt") attributes)
            ∷ trim_space fallback
            ∷ codes "GIF"
            ∷ []);
        url = src;
      } in
      elim (Bool-cases (is_safe_http_url scheme_of src)) [
        | inr u ↦ rw u (d, hs)
        | inl u ↦ elim (Bool-cases (one_of src (urls gs))) [
          | inl seen ↦ rw (u, seen) (d, hs)
          | inr seen ↦
              rw (u, seen)
                (
                  rw (urls-append gs g) (snoc-IsDistinctUrls (urls gs) src d seen),
                  snoc-All gs g hs (
                    is_safe_http_url-web g u,
                    title_or_gif (trim_space (get_attr (codes "alt") attributes))
                        (trim_space fallback),
                  ),
                )
        ]
      ]

  mutual
    unfolding append_gifs_from_images

    node-IsGallery :
        (fallback : Text) (n : Node) (gs : List TeamsGif)
        → IsGallery gs
        → IsGallery (append_from_node scheme_of fallback n gs)
    node-IsGallery fallback (text t) gs h = h
    node-IsGallery fallback (other children) gs h = images-IsGallery fallback children gs h
    node-IsGallery fallback (element name attributes children) gs h =
        elim (Bool-cases (equal_fold name (codes "img"))) [
          | inl e ↦ rw e (
              images-IsGallery fallback children _
                (append_single_gif-IsGallery attributes fallback gs h))
          | inr e ↦ rw e (images-IsGallery fallback children gs h)
        ]

    images-IsGallery :
        (fallback : Text) (ns : Nodes) (gs : List TeamsGif)
        → IsGallery gs
        → IsGallery (append_gifs_from_images scheme_of fallback ns gs)
    images-IsGallery fallback nil gs h = h
    images-IsGallery fallback (cons n ns) gs h =
        images-IsGallery fallback ns (append_from_node scheme_of fallback n gs)
          (node-IsGallery fallback n gs h)

  visit_element-IsGallery :
      (tag : Text) (attributes : List Attribute) (children : Nodes) (gs : List TeamsGif)
      → IsGallery gs
      → IsGallery (visit_element scheme_of tag attributes children gs)
  unfolding visit_element
  visit_element-IsGallery tag attributes children gs h =
      elim (Bool-cases (has_giphy_item_type attributes)) [
        | inr g ↦ rw g h
        | inl g ↦ elim (Bool-cases (one_of tag (codes "readonly" ∷ []))) [
          | inl r ↦ rw (g, r) (images-IsGallery _ children gs h)
          | inr r ↦ elim (Bool-cases (one_of tag (codes "img" ∷ []))) [
            | inl i ↦ rw (g, r, i) (append_single_gif-IsGallery attributes [] gs h)
            | inr i ↦ rw (g, r, i) h
          ]
        ]
      ]

  mutual
    unfolding collect_gifs

    collect-IsGallery :
        (n : Node) (gs : List TeamsGif) → IsGallery gs → IsGallery (collect_gifs scheme_of n gs)
    collect-IsGallery (text t) gs h = h
    collect-IsGallery (other children) gs h = children-IsGallery children gs h
    collect-IsGallery (element name attributes children) gs h =
        children-IsGallery children _
          (visit_element-IsGallery (to_lower name) attributes children gs h)

    children-IsGallery :
        (ns : Nodes) (gs : List TeamsGif)
        → IsGallery gs
        → IsGallery (collect_from_children scheme_of ns gs)
    children-IsGallery nil gs h = h
    children-IsGallery (cons n ns) gs h =
        children-IsGallery ns (collect_gifs scheme_of n gs) (collect-IsGallery n gs h)

  -- The GIFs of a document have different addresses, each with the scheme http or https, and titles that
  -- are not empty.
  pub collect_gifs-IsGallery : (doc : Node) → IsGallery (collect_gifs scheme_of doc [])
  collect_gifs-IsGallery doc = collect-IsGallery doc [] (tt, tt)
