-- ===== src/Room/Writer/Flushed.antt =====
-- A flush and a compaction, against what the writer was handed.
use crdt_server.Base.{
  ℕ, ◌+◌, ◌≡◌, refl, sym, ap, ◌∙◌, List, [], ◌∷◌, ◌++◌, append_assoc, append-nil, Bool-cases, inl,
  inr, Result, ok, err, arith,
}
use crdt_server.Room.Writer.{
  Database, Call, appended, compacted, Writer, take_rows, release, flush, is_folded, after_compact,
  compact_folded,
}
use crdt_server.Room.Writer.Trace.{
  Item, whole, ones, gather, items, rows_given, rows_folded, Skips, none_left, keep, skip,
  Skips-append, gather-last, list-cases,
}

module _ {S : Type 0} (db : Database S) where
  -- Where the writer stands after it was handed `xs`, with `n` of them waited for, if it began with
  -- `rows`: what it still holds comes behind what it has handed on.
  pub record IsWritten (rows : List ℕ) (xs : List Item) (n : ℕ) (w : Writer S) : Type 0 where
    pub order : Skips xs (gather items w.calls ++ ones w.batch)
    pub waited : w.released + w.waiters ≡ n
    pub folded : rows ++ gather rows_given w.calls ≡ gather rows_folded w.calls ++ w.folded

  take_rows-IsWritten :
      {rows : List ℕ} {xs : List Item} {n : ℕ} (us : List (List ℕ)) (a : Result (List ℕ)) (s : S)
      (w : Writer S)
      → w.batch ≡ us
      → IsWritten rows xs n w
      → IsWritten rows xs n (
          take_rows db us a
            (record w { database = s; batch = []; calls = w.calls ++ (appended us a ∷ []) }))
  unfolding take_rows ones
  take_rows-IsWritten {rows} us (err e) s w b h = record {
    order =
        rw
          (
            gather-last items w.calls (appended us (err e)),
            append-nil (gather items w.calls ++ ones us),
            ← b,
          )
          h.order;
    waited = h.waited;
    folded =
        rw
          (
            gather-last rows_given w.calls (appended us (err e)),
            gather-last rows_folded w.calls (appended us (err e)),
            append-nil (gather rows_given w.calls),
            append-nil (gather rows_folded w.calls),
          )
          h.folded;
  }
  take_rows-IsWritten {rows} us (ok new) s w b h = record {
    order =
        rw
          (
            gather-last items w.calls (appended us (ok new)),
            append-nil (gather items w.calls ++ ones us),
            ← b,
          )
          h.order;
    waited = h.waited;
    folded =
        ap (λ xs. rows ++ xs) (gather-last rows_given w.calls (appended us (ok new)))
        ∙ sym (append_assoc rows (gather rows_given w.calls) new)
        ∙ ap (λ xs. xs ++ new) h.folded
        ∙ append_assoc (gather rows_folded w.calls) w.folded new
        ∙ ap (λ xs. xs ++ (w.folded ++ new))
            (sym (
              gather-last rows_folded w.calls (appended us (ok new))
              ∙ append-nil (gather rows_folded w.calls)));
  }

  release-IsWritten :
      {rows : List ℕ} {xs : List Item} {n : ℕ} (w : Writer S)
      → IsWritten rows xs n w
      → IsWritten rows xs n (release db w)
  release-IsWritten w h = record {
    order = h.order;
    waited = omega (arith, h.waited);
    folded = h.folded;
  }

  -- A flush leaves nothing behind, and nobody waiting.
  pub record IsFlushed (rows : List ℕ) (xs : List Item) (n : ℕ) (w : Writer S) : Type 0 where
    pub written : IsWritten rows xs n w
    pub nothing : w.batch ≡ []
    pub nobody : w.waiters ≡ 0

  take_rows-batch :
      (us : List (List ℕ)) (a : Result (List ℕ)) (w : Writer S)
      → (take_rows db us a w).batch ≡ w.batch
  unfolding take_rows
  take_rows-batch us (err e) w = refl
  take_rows-batch us (ok rows) w = refl

  pub flush-IsFlushed :
      {rows : List ℕ} {xs : List Item} {n : ℕ} (w : Writer S)
      → IsWritten rows xs n w
      → IsFlushed rows xs n (flush db w)
  unfolding flush
  flush-IsFlushed w h = elim (list-cases w.batch) [
    | inl e ↦ rw (e, flush) (record { written = release-IsWritten w h; nothing = e; nobody = refl })
    | inr (u, us, e) ↦
        let p = db.append (u ∷ us) w.database in
        rw (e, flush)
          (record {
            written = release-IsWritten _ (take_rows-IsWritten (u ∷ us) p.0 p.1 w e h);
            nothing = take_rows-batch (u ∷ us) p.0 _;
            nobody = refl;
          })
  ]

  -- A snapshot is handed over: the rows it covers are those still to be folded.
  compacted-order :
      {rows : List ℕ} {xs : List Item} {n : ℕ} (c : Call) (b : List ℕ) (w : Writer S)
      → items c ≡ whole b ∷ []
      → IsFlushed rows xs n w
      → Skips (xs ++ (whole b ∷ [])) (gather items (w.calls ++ (c ∷ [])) ++ ones w.batch)
  unfolding ones
  compacted-order {rows} {xs} c b w i h =
      let before : Skips xs (gather items w.calls) =
        rw (← append-nil (gather items w.calls)) (rw h.nothing at h.written.order) in
      rw
        (h.nothing, append-nil (gather items (w.calls ++ (c ∷ []))), gather-last items w.calls c, i)
        (Skips-append before (keep (whole b) none_left))

  compacted-folded :
      {rows : List ℕ} {xs : List Item} {n : ℕ} (c : Call) (gone left : List ℕ) (w : Writer S)
      → rows_given c ≡ []
      → rows_folded c ≡ gone
      → w.folded ≡ gone ++ left
      → IsFlushed rows xs n w
      → rows ++ gather rows_given (w.calls ++ (c ∷ []))
        ≡ gather rows_folded (w.calls ++ (c ∷ [])) ++ left
  compacted-folded {rows} c gone left w g f e h =
      ap (λ ys. rows ++ ys)
        (gather-last rows_given w.calls c
          ∙ ap (λ ys. gather rows_given w.calls ++ ys) g
          ∙ append-nil (gather rows_given w.calls))
      ∙ h.written.folded
      ∙ ap (λ ys. gather rows_folded w.calls ++ ys) e
      ∙ sym (append_assoc (gather rows_folded w.calls) gone left)
      ∙ ap (λ ys. (gather rows_folded w.calls ++ ys) ++ left) (sym f)
      ∙ ap (λ ys. ys ++ left) (sym (gather-last rows_folded w.calls c))

  compacted-IsFlushed :
      {rows : List ℕ} {xs : List Item} {n : ℕ} (b all gone left : List ℕ) (a : Result (Unit {0}))
      (s : S) (w : Writer S)
      → rows_folded (compacted b all a) ≡ gone
      → w.folded ≡ gone ++ left
      → IsFlushed rows xs n w
      → IsFlushed rows
          (xs ++ (whole b ∷ []))
          n
          (record w { database = s; folded = left; calls = w.calls ++ (compacted b all a ∷ []) })
  compacted-IsFlushed b all gone left a s w f e h = record {
    written = record {
      order = compacted-order (compacted b all a) b w refl h;
      waited = h.written.waited;
      folded = compacted-folded (compacted b all a) gone left w refl f e h;
    };
    nothing = h.nothing;
    nobody = h.nobody;
  }

  after_compact-IsFlushed :
      {rows : List ℕ} {xs : List Item} {n : ℕ} (b all : List ℕ) (a : Result (Unit {0})) (s : S)
      (w : Writer S)
      → w.folded ≡ all
      → IsFlushed rows xs n w
      → IsFlushed rows (xs ++ (whole b ∷ [])) n (
          after_compact db a
            (record w { database = s; calls = w.calls ++ (compacted b all a ∷ []) }))
  unfolding after_compact
  after_compact-IsFlushed b all a s w e h = elim (Bool-cases (is_folded a)) [
    | inl k ↦
        rw (k, after_compact)
          (compacted-IsFlushed b all all [] a s w (rw k refl) (e ∙ sym (append-nil all)) h)
    | inr k ↦ rw (k, after_compact) (compacted-IsFlushed b all [] w.folded a s w (rw k refl) refl h)
  ]

  pub compact_folded-IsFlushed :
      {rows : List ℕ} {xs : List Item} {n : ℕ} (b : List ℕ) (w : Writer S)
      → IsFlushed rows xs n w
      → IsFlushed rows (xs ++ (whole b ∷ [])) n (compact_folded db b w)
  unfolding compact_folded
  compact_folded-IsFlushed b w h = elim (list-cases w.folded) [
    | inl e ↦
        rw (e, compact_folded)
          (record {
            written = record {
              order =
                  rw (← append-nil (gather items w.calls ++ ones w.batch))
                    (Skips-append h.written.order (skip b none_left));
              waited = h.written.waited;
              folded = h.written.folded;
            };
            nothing = h.nothing;
            nobody = h.nobody;
          })
    | inr (row, others, e) ↦
        let p = db.compact b (row ∷ others) w.database in
        rw (e, compact_folded) (after_compact-IsFlushed b (row ∷ others) p.0 p.1 w e h)
  ]
