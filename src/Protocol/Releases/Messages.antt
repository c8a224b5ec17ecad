-- ===== src/Protocol/Releases/Messages.antt =====
-- A message of a release: it gathers operations, or ends the release in a unit.
use interleave.Prelude.{
  ◌+◌, ◌≡◌, refl, sym, ap, subst, true, false, ◌&&◌, ◌||◌, not, Option, none, List, [], ◌∷◌, ◌++◌,
  Bytes, length, drop, concat, ltb, ◌==◌, arith, append-nil, append_assoc, All,
}
use interleave.Protocol.Cycles.{
  type_of, is_flush, is_sync, is_query, is_extended, is_copy, is_empty,
}
use interleave.Protocol.Cycles.Grouping.{IsOpenFrame}
use interleave.Protocol.Session.{Session}
use interleave.Protocol.Reader.{cstring, finish}
use interleave.Protocol.Results.{Holds, Holds-and_then, Holds-each, Holds-if, Holds-cases}
use interleave.Protocol.Assembler.{
  Host, FrontendUnit, Assembler, accept_parse, accept_bind, accept_execute, accept_named,
  accept_query, accept_extended, assemble, buffered, reset, unit_of,
}
use interleave.Protocol.Releases.{accept_each}
use interleave.Protocol.Releases.Gathering.{
  Gathers, GathersNow, Proposes, accept_parse-Gathers, accept_bind-Gathers, accept_execute-Gathers,
  accept_named-Gathers,
}

-- The types of the messages that end no release, and of those that end one.
open-type :
    (frame : Bytes)
    → IsOpenFrame frame
    → (type_of frame == 80) ≡ false
    → (type_of frame == 66) ≡ false
    → (type_of frame == 69) ≡ false
    → (type_of frame == 68 || type_of frame == 67) ≡ true
open-type frame (extended, s, f) p b e = ground arith

module _ (frame : Bytes) (end : (is_sync frame || is_flush frame) ≡ true) where
  end-type :
      ((type_of frame == 80) ≡ false)
      × ((type_of frame == 66) ≡ false)
      × ((type_of frame == 69) ≡ false)
      × ((type_of frame == 68 || type_of frame == 67) ≡ false)
  end-type = (ground arith, ground arith, ground arith, ground arith)

module _ (h : Host) (s : Session) (frames : List Bytes) where
  accept_open-Gathers :
      (a : Assembler) (frame rest : Bytes)
      → IsOpenFrame frame
      → Gathers s frames a
      → Holds (GathersNow s frames) (accept_extended h a (type_of frame) rest)
  unfolding accept_extended
  accept_open-Gathers a frame rest open_frame g =
      Holds-cases (GathersNow s frames) (type_of frame == 80) _ _
        (λ p.
          Holds-and_then _ (GathersNow s frames) (accept_parse h a rest) _
            (accept_parse-Gathers h s frames a rest g) (λ b k. k))
        (λ p.
          Holds-cases (GathersNow s frames) (type_of frame == 66) _ _
            (λ b.
              Holds-and_then _ (GathersNow s frames) (accept_bind h a rest) _
                (accept_bind-Gathers h s frames a rest g) (λ b k. k))
            (λ b.
              Holds-cases (GathersNow s frames) (type_of frame == 69) _ _
                (λ e.
                  Holds-and_then _ (GathersNow s frames) (accept_execute h a rest) _
                    (accept_execute-Gathers h s frames a rest g) (λ b k. k))
                (λ e. rw (open-type frame open_frame p b e) (
                  Holds-and_then _ (GathersNow s frames) (accept_named h a (type_of frame) rest) _
                    (accept_named-Gathers h s frames a (type_of frame) rest g) (λ b k. k)))))

  accept_end-Proposes :
      (a : Assembler) (frame rest : Bytes)
      → (is_sync frame || is_flush frame) ≡ true
      → Gathers s frames a
      → Holds (Proposes s frames) (accept_extended h a (type_of frame) rest)
  unfolding accept_extended reset unit_of
  accept_end-Proposes a frame rest end g =
      let (p, b, e, n) = end-type frame end in
      rw p (
        rw b (
          rw e (
            rw n (
              Holds-each (Proposes s frames) (finish rest) _ (λ done. record {
                whole = ap concat g.held;
                unstarted = refl;
                applied = g.applied;
              })))))

  Gathers-buffered :
      (a : Assembler) (frame : Bytes)
      → Gathers s frames a
      → Gathers s (frames ++ frame ∷ []) (buffered h a frame)
  Gathers-buffered a frame g = record {
    held = ap (λ l. l ++ frame ∷ []) g.held;
    applied = g.applied;
  }

module _ (h : Host) (P : Assembler × Option FrontendUnit → Type 0) where
  -- A message of the extended protocol that is accepted is buffered and read.
  pub assemble-Holds :
      (a : Assembler) (frame : Bytes)
      → is_query frame ≡ false
      → Holds P (accept_extended h (buffered h a frame) (type_of frame) (drop 5 frame))
      → Holds P (assemble h a frame)
  unfolding assemble
  assemble-Holds a frame other k = Holds-if P (is_flush frame && not a.flushes) _ _ tt (
      Holds-if P (is_copy frame) _ _ tt (
        rw other (
          Holds-if P (not (is_extended frame)) _ _ tt (
            Holds-if P (is_flush frame && is_empty a.frames) _ _ tt
              (Holds-if P (ltb a.session.max_buffered (a.bytes + length frame)) _ _ tt k)))))

pub open-other : (frame : Bytes) → IsOpenFrame frame → is_query frame ≡ false
open-other frame (extended, s, f) = ground arith

pub end-other : (frame : Bytes) → (is_sync frame || is_flush frame) ≡ true → is_query frame ≡ false
end-other frame end = ground arith

module _ (h : Host) (s : Session) where
  pub assemble-Gathers :
      (frames : List Bytes) (a : Assembler) (frame : Bytes)
      → IsOpenFrame frame
      → Gathers s frames a
      → Holds (GathersNow s (frames ++ frame ∷ [])) (assemble h a frame)
  assemble-Gathers frames a frame open_frame g =
      assemble-Holds h _ a frame (open-other frame open_frame) (
        accept_open-Gathers h s (frames ++ frame ∷ []) (buffered h a frame) frame (drop 5 frame)
          open_frame (Gathers-buffered h s frames a frame g))

  assemble-Proposes :
      (frames : List Bytes) (a : Assembler) (frame : Bytes)
      → (is_sync frame || is_flush frame) ≡ true
      → Gathers s frames a
      → Holds (Proposes s (frames ++ frame ∷ [])) (assemble h a frame)
  assemble-Proposes frames a frame end g = assemble-Holds h _ a frame (end-other frame end) (
      accept_end-Proposes h s (frames ++ frame ∷ []) (buffered h a frame) frame (drop 5 frame) end
        (Gathers-buffered h s frames a frame g))

  -- A Simple Query holds its own message and no operations.
  assemble_query-Proposes :
      (a : Assembler) (frame : Bytes)
      → is_query frame ≡ true
      → a.session ≡ s
      → Holds (Proposes s (frame ∷ [])) (assemble h a frame)
  unfolding assemble accept_query
  assemble_query-Proposes a frame query same =
      let P = Proposes s (frame ∷ []) in
      Holds-if P (is_flush frame && not a.flushes) _ _ tt (
        Holds-if P (is_copy frame) _ _ tt (
          rw query (
            Holds-if P (not (a.bytes == 0)) _ _ tt (
              Holds-each P (cstring (drop 5 frame)) _ (λ (sql, end).
                Holds-each P (finish end) _ (λ done. record {
                  whole = sym (append-nil frame);
                  unstarted = refl;
                  applied = sym same;
                }))))))

  -- Open messages and the one that ends them.
  pub accept_each-Proposes :
      (body : List Bytes) (end : Bytes) (frames : List Bytes) (a : Assembler)
      (unit : Option FrontendUnit)
      → All IsOpenFrame body
      → (is_sync end || is_flush end) ≡ true
      → Gathers s frames a
      → Holds (Proposes s (frames ++ (body ++ end ∷ []))) (accept_each h a unit (body ++ end ∷ []))
  unfolding accept_each
  accept_each-Proposes [] end frames a unit opened ends g =
      Holds-and_then _ _ (assemble h a end) _ (assemble-Proposes frames a end ends g) (λ b k. k)
  accept_each-Proposes (frame ∷ body) end frames a unit (open_frame, opened) ends g =
      Holds-and_then _ _ (assemble h a frame) _ (assemble-Gathers frames a frame open_frame g)
        (λ b k.
          subst (λ all. Holds (Proposes s all) (accept_each h b.0 b.1 (body ++ end ∷ [])))
            (append_assoc frames (frame ∷ []) (body ++ end ∷ []))
            (accept_each-Proposes body end (frames ++ frame ∷ []) b.0 b.1 opened ends k))

  pub accept_query-Proposes :
      (query : Bytes) (a : Assembler)
      → is_query query ≡ true
      → a.session ≡ s
      → Holds (Proposes s (query ∷ [])) (accept_each h a none (query ∷ []))
  unfolding accept_each
  accept_query-Proposes query a kind same =
      Holds-and_then _ _ (assemble h a query) _ (assemble_query-Proposes a query kind same)
        (λ b k. k)
