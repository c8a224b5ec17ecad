-- ===== src/Protocol/Backend/Summaries.antt =====
-- The summary of a unit's messages is that of all its command tags, up to the first ReadyForQuery.
use interleave.Prelude.{
  ℕ, ◌+◌, ◌≡◌, ◌⊎◌, inl, inr, refl, sym, ap, ◌∙◌, true, false, List, [], ◌∷◌, ◌++◌, Bytes, Text,
  arith, All, append_assoc, append-nil, Bool-cases, ◌==◌, if◌then◌else◌,
}
use interleave.Types.{ReadyCompletion}
use interleave.Protocol.Backend.{Summary, tag_of, summarize, summarize_all}
use interleave.Protocol.Messages.{Reaction, thrown, silent, complete, kind_of, tag_rows}

module _ (utf8 : Bytes → Text) where
  -- The tags of the CommandComplete messages, and the rows that they count.
  abbrev pub tags_in : List Bytes → List Text
  tags_in [] = []
  tags_in (frame ∷ frames) =
      if kind_of frame == 67 then tag_of utf8 frame ∷ tags_in frames else tags_in frames

  abbrev pub rows_in : List Bytes → ℕ
  rows_in [] = 0
  rows_in (frame ∷ frames) =
      (if kind_of frame == 67 then tag_rows (tag_of utf8 frame) else 0) + rows_in frames

  summarize-silent :
      (s t : Summary) (frame : Bytes)
      → summarize utf8 s frame ≡ (t, silent)
      → ((kind_of frame == 90) ≡ false)
        × ((((kind_of frame == 67) ≡ true)
              × (t.tags ≡ s.tags ++ tag_of utf8 frame ∷ [])
              × (t.rows ≡ s.rows + tag_rows (tag_of utf8 frame)))
            ⊎ (((kind_of frame == 67) ≡ false) × (t.tags ≡ s.tags) × (t.rows ≡ s.rows)))
  unfolding summarize
  summarize-silent s t frame h = elim (Bool-cases (kind_of frame == 67)) [
    | inl tag ↦ (ground arith, inl (tag, ground arith, ground arith))
    | inr other ↦ (ground arith, inr (other, ground arith, ground arith))
  ]

  summarize-complete :
      (s t : Summary) (frame : Bytes) (c : ReadyCompletion)
      → summarize utf8 s frame ≡ (t, complete c)
      → ((kind_of frame == 90) ≡ true)
        × (c.command_tags ≡ s.tags)
        × (c.row_count ≡ s.rows)
        × (c.error ≡ s.error)
  unfolding summarize
  summarize-complete s t frame c h = (ground arith, ground arith, ground arith, ground arith)

  -- The messages up to a ReadyForQuery, and what was summed up by then.
  pub record IsSummary (s : Summary) (frames : List Bytes) (c : ReadyCompletion) : Type 0 where
    pub body : List Bytes
    pub end : Bytes
    pub rest : List Bytes
    pub split : frames ≡ body ++ end ∷ rest
    pub ready : (kind_of end == 90) ≡ true
    pub before : All (λ frame. (kind_of frame == 90) ≡ false) body
    pub tags : c.command_tags ≡ s.tags ++ tags_in body
    pub rows : c.row_count ≡ s.rows + rows_in body

  IsSummary-later :
      (s t : Summary) (frame : Bytes) (frames : List Bytes) (c : ReadyCompletion)
      → summarize utf8 s frame ≡ (t, silent)
      → IsSummary t frames c
      → IsSummary s (frame ∷ frames) c
  IsSummary-later s t frame frames c h r =
      let (other, change) = summarize-silent s t frame h in
      record {
        body = frame ∷ r.body;
        end = r.end;
        rest = r.rest;
        split = ap (λ l. frame ∷ l) r.split;
        ready = r.ready;
        before = (other, r.before);
        tags = elim change [
          | inl (tag, tags, rows) ↦ rw tag (
              r.tags
              ∙ ap (λ l. l ++ tags_in r.body) tags
              ∙ append_assoc s.tags (tag_of utf8 frame ∷ []) (tags_in r.body))
          | inr (no_tag, tags, rows) ↦ rw no_tag (r.tags ∙ ap (λ l. l ++ tags_in r.body) tags)
        ];
        rows =
            let total = r.rows in
            elim change [
              | inl (tag, tags, rows) ↦ rw tag (omega arith)
              | inr (no_tag, tags, rows) ↦ rw no_tag (omega arith)
            ];
      }

  summarize_step :
      (s t : Summary) (frame : Bytes) (frames : List Bytes) (c : ReadyCompletion)
      (r : Reaction ReadyCompletion)
      → summarize utf8 s frame ≡ (t, r)
      → (summarize_all utf8 s (frame ∷ frames)).1 ≡ complete c
      → ((summarize_all utf8 t frames).1 ≡ complete c → IsSummary t frames c)
      → IsSummary s (frame ∷ frames) c
  unfolding summarize_all
  summarize_step s t frame frames c (thrown e) h done ih = absurd (ground arith)
  summarize_step s t frame frames c silent h done ih =
      IsSummary-later s t frame frames c h (ih (ground arith))
  summarize_step s t frame frames c (complete d) h done ih =
      let same : d ≡ c = ground arith in
      let (ready, tags, rows, error) = summarize-complete s t frame d h in
      record {
        body = [];
        end = frame;
        rest = frames;
        split = refl;
        ready = ready;
        before = tt;
        tags = rw (sym same) (tags ∙ sym (append-nil s.tags));
        rows = rw (sym same) (omega arith);
      }

  summarize_all-nil : (s : Summary) → (summarize_all utf8 s []).1 ≡ silent
  unfolding summarize_all
  summarize_all-nil s = refl

  -- A completion comes with the first ReadyForQuery; its command tags are those of all CommandComplete
  -- messages before it, in their order, after the tags that the summary had, and its row count adds
  -- the rows that these tags count.
  pub summarize_all-IsSummary :
      (s : Summary) (frames : List Bytes) (c : ReadyCompletion)
      → (summarize_all utf8 s frames).1 ≡ complete c
      → IsSummary s frames c
  summarize_all-IsSummary s [] c h = absurd (let e = summarize_all-nil s in ground arith)
  summarize_all-IsSummary s (frame ∷ frames) c h =
      summarize_step s (summarize utf8 s frame).0 frame frames c (summarize utf8 s frame).1 refl h
        (λ done. summarize_all-IsSummary (summarize utf8 s frame).0 frames c done)
