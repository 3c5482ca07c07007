-- ===== src/Paths/Normalize.antt =====
-- paths.ts: what `normalizeWorkspacePath` returns.
use grafana_pi_app.Prelude.{
  ◌≤◌, ◌≡◌, refl, sym, subst, Bool, none, List, [], ◌∷◌, Text, text_eq, le_of_not-ltb,
  not-ltb_of_le, All, Option-cases, inl, inr, ltb, Bool-cases,
}
use grafana_pi_app.Paths.{
  slash, ok, ◌>>=◌, max_path_bytes, utf8_byte_length, split, join, render, resolve, trim, check_raw,
  absolute, finish, normalize_workspace_path,
}
use grafana_pi_app.Paths.Segments.{
  IsSegment, NoSlash, split-NoSlash, split-join, split-append, resolve-IsSegment,
  resolve_of_IsSegment, both_passed,
}

-- A path in the form that the workspace keys its files by.
pub record IsNormalized (path : Text) : Type 0 where
  pub segments : List Text
  pub plain : All IsSegment segments
  pub rendered : path ≡ render segments
  pub fits : utf8_byte_length path ≤ max_path_bytes

All-NoSlash : (segments : List Text) → All IsSegment segments → All NoSlash segments
All-NoSlash [] h = tt
All-NoSlash (s ∷ segments) (p, h) = (p.no_slash, All-NoSlash segments h)

resolve-render :
    (clamp : Bool) (segments : List Text)
    → All IsSegment segments
    → resolve clamp [] (split slash (render segments)) ≡ ok segments
unfolding render text_eq utf8_byte_length
resolve-render clamp [] h = unfold split resolve join in refl
resolve-render clamp (s ∷ segments) h =
    rw
      (
        split-append [] (join (s ∷ segments)) refl,
        split-join s segments (All-NoSlash (s ∷ segments) h),
      )
      (unfold resolve in resolve_of_IsSegment clamp [] (s ∷ segments) h)

module _ (nfc : Text → Text) where
  finish-IsNormalized :
      (segments : List Text) (q : Text)
      → All IsSegment segments
      → finish nfc segments ≡ ok q
      → IsNormalized q
  unfolding finish
  finish-IsNormalized segments q h e =
      elim (Bool-cases (ltb max_path_bytes (utf8_byte_length (render segments)))) [
        | inl long ↦ cc long
        | inr short ↦
            let same : render segments ≡ q = cc short in
            record {
              segments = segments;
              plain = h;
              rendered = sym same;
              fits = rw (← same) (le_of_not-ltb _ _ short);
            }
      ]

  absolute_of_render :
      (cwd : Text) (segments : List Text) (path : Text)
      → path ≡ render segments
      → absolute nfc cwd path ≡ path
  unfolding absolute render
  absolute_of_render cwd segments path e = rw e refl

  finish-render :
      (segments : List Text)
      → utf8_byte_length (render segments) ≤ max_path_bytes
      → finish nfc segments ≡ ok (render segments)
  unfolding finish
  finish-render segments h = rw (not-ltb_of_le _ _ h)

  -- Whatever the path and the working directory, a path that normalisation returns is the rendering
  -- of segments that are not empty, not "." or "..", hold no slash and take at most 255 bytes each;
  -- it takes at most 1024 bytes.
  pub normalize_workspace_path-IsNormalized :
      (path cwd q : Text) (clamp : Bool)
      → normalize_workspace_path nfc path cwd clamp ≡ ok q
      → IsNormalized q
  unfolding normalize_workspace_path
  normalize_workspace_path-IsNormalized path cwd q clamp e =
      elim (Option-cases (check_raw nfc (trim path))) [
        | inl fine ↦
            let (segments, resolved, finished) =
              both_passed (resolve clamp [] (split slash (absolute nfc cwd (trim path))))
                (finish nfc) (rw (fine, normalize_workspace_path) at e) in
            finish-IsNormalized segments q
              (resolve-IsSegment clamp [] (split slash (absolute nfc cwd (trim path))) segments tt
                (split-NoSlash (absolute nfc cwd (trim path))) resolved)
              finished
        | inr (wrong, refused) ↦ cc (refused)
      ]

  -- A normalised path that begins and ends in no white space and passes the checks of raw text is
  -- returned unchanged, under every working directory and with either treatment of the root.
  pub normalize_workspace_path_fixed :
      (path cwd : Text) (clamp : Bool)
      → IsNormalized path
      → trim path ≡ path
      → check_raw nfc path ≡ none
      → normalize_workspace_path nfc path cwd clamp ≡ ok path
  unfolding normalize_workspace_path
  normalize_workspace_path_fixed path cwd clamp n trimmed fine =
      rw (trimmed, normalize_workspace_path)
        (rw (fine, normalize_workspace_path)
          (rw (trimmed, absolute_of_render cwd n.segments path n.rendered)
            (subst (λ (p : Text). (resolve clamp [] (split slash p) >>= finish nfc) ≡ ok p)
              (sym n.rendered)
              (rw (resolve-render clamp n.segments n.plain)
                (finish-render n.segments (rw (← n.rendered) n.fits))))))
