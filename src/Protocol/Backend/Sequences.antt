-- ===== src/Protocol/Backend/Sequences.antt =====
-- The order of the messages that describe a statement.
use interleave.Prelude.{
  ℕ, ◌≡◌, inl, inr, refl, sym, ap, ◌∙◌, subst, Bool, true, false, not, List, [], ◌∷◌, ◌++◌, Bytes,
  Text, arith, filter, map, drop, Bool-cases,
}
use interleave.Types.{MetadataCompletion, described, ResultShape, rows, no_data}
use interleave.Protocol.Backend.{
  Describing, Stage, parse, parameters, columns, done, is_notice, describe, describe_all,
  new_describing,
}
use interleave.Protocol.Messages.{Reaction, thrown, silent, complete, kind_of, u16}

-- The kinds of the messages that must still come before the last one.
abbrev pub ahead : Stage → List ℕ
ahead parse = 49 ∷ 116 ∷ []
ahead parameters = 116 ∷ []
ahead columns = []
ahead done = []

-- The last message describes rows with their number of columns, or that there are none.
abbrev pub IsLast : Bytes → ℕ → ResultShape → Type 0
IsLast end n rows = (kind_of end ≡ 84) × (n ≡ u16 (drop 5 end))
IsLast end n no_data = (kind_of end ≡ 110) × (n ≡ 0)

module _ (utf8 : Bytes → Text) where
  abbrev pub significant : Bytes → Bool
  significant frame = not (is_notice utf8 frame)

  -- The messages up to the last one are notices and those that the stages ask for.
  pub record IsDescription (s : Describing) (frames : List Bytes) (n : ℕ) (shape : ResultShape)
      : Type 0 where
    pub body : List Bytes
    pub end : Bytes
    pub rest : List Bytes
    pub split : frames ≡ body ++ end ∷ rest
    pub order : map kind_of (filter significant body) ≡ ahead s.state
    pub last : IsLast end n shape

  describe-order :
      (s t : Describing) (frame : Bytes) (now : Stage)
      → s.state ≡ now
      → describe utf8 s frame ≡ (t, silent)
      → is_notice utf8 frame ≡ false
      → ahead now ≡ kind_of frame ∷ ahead t.state
  unfolding describe
  describe-order s t frame parse at h other =
      let kind : 49 ≡ kind_of frame = ground arith in
      let next : t.state ≡ parameters = ground arith in rw next (rw kind refl)
  describe-order s t frame parameters at h other =
      let kind : 116 ≡ kind_of frame = ground arith in
      let next : t.state ≡ columns = ground arith in rw next (rw kind refl)
  describe-order s t frame columns at h other = absurd (ground arith)
  describe-order s t frame done at h other = absurd (ground arith)

  describe-notice :
      (s t : Describing) (frame : Bytes)
      → describe utf8 s frame ≡ (t, silent)
      → is_notice utf8 frame ≡ true
      → t.state ≡ s.state
  unfolding describe
  describe-notice s t frame h notice = ground arith

  describe-IsLast :
      (s t : Describing) (frame : Bytes) (p n : ℕ) (shape : ResultShape)
      → describe utf8 s frame ≡ (t, complete (described p n shape))
      → (s.state ≡ columns) × IsLast frame n shape
  unfolding describe
  describe-IsLast s t frame p n rows h = (ground arith, (ground arith, ground arith))
  describe-IsLast s t frame p n no_data h = (ground arith, (ground arith, ground arith))

  describe_step :
      (s t : Describing) (frame : Bytes) (frames : List Bytes) (p n : ℕ) (shape : ResultShape)
      (r : Reaction MetadataCompletion)
      → describe utf8 s frame ≡ (t, r)
      → (describe_all utf8 s (frame ∷ frames)).1 ≡ complete (described p n shape)
      → ((describe_all utf8 t frames).1 ≡ complete (described p n shape)
          → IsDescription t frames n shape)
      → IsDescription s (frame ∷ frames) n shape
  unfolding describe_all
  describe_step s t frame frames p n shape (thrown e) h done' ih = absurd (ground arith)
  describe_step s t frame frames p n shape silent h done' ih =
      let d = ih (ground arith) in
      record {
        body = frame ∷ d.body;
        end = d.end;
        rest = d.rest;
        split = ap (λ l. frame ∷ l) d.split;
        order = elim (Bool-cases (is_notice utf8 frame)) [
          | inl notice ↦ rw notice (d.order ∙ ap ahead (describe-notice s t frame h notice))
          | inr other ↦ rw other (
              ap (λ l. kind_of frame ∷ l) d.order
              ∙ sym (describe-order s t frame s.state refl h other))
        ];
        last = d.last;
      }
  describe_step s t frame frames p n shape (complete c) h done' ih =
      let same : c ≡ described p n shape = ground arith in
      let (now, last) =
        describe-IsLast s t frame p n shape
          (subst (λ x. describe utf8 s frame ≡ (t, complete x)) same h) in
      record {
        body = [];
        end = frame;
        rest = frames;
        split = refl;
        order = rw now refl;
        last = last;
      }

  describe_all-nil : (s : Describing) → (describe_all utf8 s []).1 ≡ silent
  unfolding describe_all
  describe_all-nil s = refl

  from_stage :
      (s : Describing) (frames : List Bytes) (p n : ℕ) (shape : ResultShape)
      → (describe_all utf8 s frames).1 ≡ complete (described p n shape)
      → IsDescription s frames n shape
  from_stage s [] p n shape h = absurd (let e = describe_all-nil s in ground arith)
  from_stage s (frame ∷ frames) p n shape h =
      describe_step s (describe utf8 s frame).0 frame frames p n shape (describe utf8 s frame).1
        refl h (λ done'. from_stage (describe utf8 s frame).0 frames p n shape done')

  -- A statement is described only by a ParseComplete, a ParameterDescription and then a RowDescription
  -- or a NoData, in this order and with no message between them but notices, status and notifications;
  -- its column count and shape are those of the last one.
  pub describe_all-IsDescription :
      (frames : List Bytes) (p n : ℕ) (shape : ResultShape)
      → (describe_all utf8 new_describing frames).1 ≡ complete (described p n shape)
      → IsDescription new_describing frames n shape
  describe_all-IsDescription frames p n shape h = from_stage new_describing frames p n shape h
