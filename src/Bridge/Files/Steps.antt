-- ===== src/Bridge/Files/Steps.antt =====
-- What HandleOutboundMatrixFile (internal/bridge/matrix_file_handler.go) does to a state follows from
-- what its two functions do to it.
use matrix_teams.Prelude.{
  ℕ, Bool, true, ◌⊎◌, inl, inr, Option, none, some, List, ltb, length, is_some, Text, trim_space,
  Bool-cases,
}
use matrix_teams.Bridge.Files.{
  MessageEventContent, MatrixFileInfo, FileError, max_attachment_bytes, extract_matrix_file_info,
  on_sent, on_downloaded, on_file_info, handle_outbound_matrix_file,
}

module _ {S E : Type 0} (file_id : Text → Option Text)
    (download : Text → Bool → S → (E ⊎ List ℕ) × S)
    (send : Text → Text → List ℕ → Text → S → Option E × S)
    -- a state after a step that failed, or that did not
    (P : Bool → S → Type 0)
    (downloads : (url : Text) (b : Bool) (s : S) → P true s → P true (download url b s).1)
    (sends : (t n : Text) (bytes : List ℕ) (c : Text) (s : S)
      → P true s
      → P (is_some (send t n bytes c s).0) (send t n bytes c s).1) where
  after_sent :
      (r : Option E × S)
      → P (is_some r.0) r.1
      → (let r' = on_sent file_id download send r in P (is_some r'.0) r'.1)
  unfolding on_sent
  after_sent (none, s) h = h
  after_sent (some err, s) h = h

  after_downloaded :
      (thread_id : Text) (info : MatrixFileInfo) (r : (E ⊎ List ℕ) × S)
      → P true r.1
      → (let r' = on_downloaded file_id download send thread_id info r in P (is_some r'.0) r'.1)
  unfolding on_downloaded
  after_downloaded thread_id info (inl err, s) h = h
  after_downloaded thread_id info (inr bytes, s) h =
      elim (Bool-cases (ltb max_attachment_bytes (length bytes))) [
        | inl e ↦ rw e h
        | inr e ↦ rw e (
            after_sent (send (trim_space thread_id) info.file_name bytes info.caption s)
              (sends (trim_space thread_id) info.file_name bytes info.caption s h))
      ]

  after_file_info :
      (thread_id : Text) (info : FileError E ⊎ MatrixFileInfo) (s : S)
      → P true s
      → (let r = on_file_info file_id download send thread_id info s in P (is_some r.0) r.1)
  unfolding on_file_info
  after_file_info thread_id (inl err) s h = h
  after_file_info thread_id (inr info) s h =
      after_downloaded thread_id info (download info.mxc_url info.is_encrypted s)
        (downloads info.mxc_url info.is_encrypted s h)

  pub after_handle_outbound_matrix_file :
      (thread_id : Text) (content : MessageEventContent) (s : S)
      → P true s
      → (let r = handle_outbound_matrix_file file_id download send thread_id content s in
          P (is_some r.0) r.1)
  unfolding handle_outbound_matrix_file
  after_handle_outbound_matrix_file thread_id content s h =
      after_file_info thread_id (extract_matrix_file_info file_id content) s h
