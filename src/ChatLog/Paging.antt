-- ===== src/ChatLog/Paging.antt =====
-- logStorage.ts, `replay`: the pages of the log, of whatever size, are replayed as the whole log.
use grafana_pi_app.Prelude.{
  ℕ, zero, suc, ◌+◌, ◌<◌, ◌≤◌, ◌≡◌, refl, ap, ◌∙◌, arith, Option, none, some, List, [], ◌∷◌, ◌++◌,
  Text, length, take, drop, ltb, Bool-cases, inl, inr, take-append-drop, ltb→lt, le_of_not-ltb,
}
use grafana_pi_app.ChatLog.{Answer, ok, Row, Chat, Backend, chat, page_of, Page, start_of, log}
use grafana_pi_app.ChatLog.Storage.{Write, Replayed, replay_row, replay_rows, replay_pages}

module _ {ℓ} {A : Type ℓ} where
  drop-drop : (m n k : ℕ) (xs : List A) → k ≡ m + n → drop n (drop m xs) ≡ drop k xs
  drop-drop zero n k xs e = let same : k ≡ n = omega (arith, e) in rw same refl
  drop-drop (suc m) n zero xs e = absurd (omega (arith, e))
  drop-drop (suc m) zero (suc k) [] e = refl
  drop-drop (suc m) (suc n) (suc k) [] e = refl
  drop-drop (suc m) n (suc k) (x ∷ xs) e = drop-drop m n k xs (omega (arith, e))

  -- What starts near enough to the end is taken whole.
  take-drop_all :
      (start limit : ℕ) (xs : List A)
      → length xs ≤ start + limit
      → take limit (drop start xs) ≡ drop start xs
  take-drop_all zero zero [] h = refl
  take-drop_all zero (suc limit) [] h = refl
  take-drop_all zero zero (x ∷ xs) h = ground (arith, h)
  take-drop_all zero (suc limit) (x ∷ xs) h =
      ap (λ (l : List A). x ∷ l) (take-drop_all zero limit xs (omega (arith, h)))
  take-drop_all (suc start) limit (x ∷ xs) h = take-drop_all start limit xs (omega (arith, h))
  take-drop_all (suc start) zero [] h = refl
  take-drop_all (suc start) (suc limit) [] h = refl

module _ {Mem : Type 0} (prepare : Mem → List Write → List Write × ℕ)
    (apply_at : Mem → List Write → ℕ → Mem) (parse_write : Text → Write) where
  pub replay_rows-append :
      (xs ys : List Row) (r : Replayed prepare apply_at)
      → replay_rows prepare apply_at parse_write (xs ++ ys) r
        ≡ replay_rows prepare apply_at parse_write ys
            (replay_rows prepare apply_at parse_write xs r)
  unfolding replay_rows
  replay_rows-append [] ys r = refl
  replay_rows-append (x ∷ xs) ys r =
      replay_rows-append xs ys (replay_row prepare apply_at parse_write x r)

  module _ (fetch : Option ℕ → ℕ → Answer Page) (fuel limit : ℕ) where
    replay_pages-more :
        (next : ℕ) (cursor : Option ℕ) (page : Page) (r : Replayed prepare apply_at)
        → fetch cursor limit ≡ ok page
        → page.next_cursor ≡ some next
        → replay_pages prepare apply_at parse_write fetch (suc fuel) limit cursor r
          ≡ replay_pages prepare apply_at parse_write fetch fuel limit
              (some next)
              (replay_rows prepare apply_at parse_write page.rows r)
    unfolding replay_pages
    replay_pages-more next cursor page r e more =
        rw (e, replay_pages) (rw (more, replay_pages) refl)

    replay_pages-last :
        (cursor : Option ℕ) (page : Page) (r : Replayed prepare apply_at)
        → fetch cursor limit ≡ ok page
        → page.next_cursor ≡ none
        → replay_pages prepare apply_at parse_write fetch (suc fuel) limit cursor r
          ≡ ok (replay_rows prepare apply_at parse_write page.rows r)
    unfolding replay_pages
    replay_pages-last cursor page r e last = rw (e, replay_pages) (rw (last, replay_pages) refl)

  -- The pages of a list of rows.
  abbrev pages : List Row → Option ℕ → ℕ → Answer Page
  pages rows cursor limit = ok (page_of (start_of cursor) limit rows)

  module _ (fetch : Option ℕ → ℕ → Answer Page) (rows : List Row)
      (paged : (cursor : Option ℕ) (limit : ℕ) → fetch cursor limit ≡ pages rows cursor limit) where
    replay_pages-rows :
        (limit fuel : ℕ) (cursor : Option ℕ) (r : Replayed prepare apply_at)
        → 0 < limit
        → 0 < fuel
        → length rows < start_of cursor + fuel
        → replay_pages prepare apply_at parse_write fetch fuel limit cursor r
          ≡ ok (replay_rows prepare apply_at parse_write (drop (start_of cursor) rows) r)
    replay_pages-rows limit zero cursor r wide some_fuel enough = absurd (omega (arith, some_fuel))
    replay_pages-rows limit (suc fuel) cursor r wide some_fuel enough =
        let start = start_of cursor in
        let page = page_of start limit rows in
        elim (Bool-cases (ltb (start + limit) (length rows))) [
          | inl more ↦
              let short = ltb→lt (start + limit) (length rows) more in
              replay_pages-more fetch fuel limit (start + limit) cursor page r (paged cursor limit)
                (rw more refl)
              ∙ replay_pages-rows limit fuel (some (start + limit)) _ wide
                  (omega (arith, short, enough, wide)) (omega (arith, short, enough, wide))
              ∙ rw
                  (
                    ← drop-drop start limit (start + limit) rows refl,
                    ← replay_rows-append (take limit (drop start rows))
                        (drop limit (drop start rows)) r,
                    take-append-drop limit (drop start rows),
                  )
                  refl
          | inr last ↦
              replay_pages-last fetch fuel limit cursor page r (paged cursor limit) (rw last refl)
              ∙ rw (take-drop_all start limit rows (le_of_not-ltb _ _ last)) refl
        ]

  -- Reading the log of a chat page by page, with pages of any size but zero and with more rounds allowed than
  -- the log has rows, ends, and replays the rows of the log from the first to the last.
  pub replay_pages-log :
      (id : Text) (c : Chat) (b : Backend) (limit fuel : ℕ) (r : Replayed prepare apply_at)
      → chat id b ≡ ok c
      → 0 < limit
      → length c.rows < fuel
      → replay_pages prepare apply_at parse_write
          (λ cursor size. log id cursor size b)
          fuel
          limit
          none
          r
        ≡ ok (replay_rows prepare apply_at parse_write c.rows r)
  replay_pages-log id c b limit fuel r there wide enough =
      replay_pages-rows (λ cursor size. log id cursor size b) c.rows
        (λ cursor size. unfold log in rw there refl) limit fuel none r wide (omega (arith, enough))
        (omega (arith, enough))
