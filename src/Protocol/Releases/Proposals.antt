-- ===== src/Protocol/Releases/Proposals.antt =====
-- Every release that is proposed holds the client's messages, and foretells the session that the
-- server's acknowledgements lead to.
use interleave.Prelude.{
  ◌≡◌, refl, sym, subst, ◌⊎◌, inl, inr, Bool, true, false, ◌&&◌, ◌||◌, not, Option, none, some,
  List, [], ◌∷◌, Text, Bytes, codes, text_eq, length, concat, ltb, ◌==◌, arith, Bool-cases,
}
use interleave.Types.{ProtocolProfile, is_some}
use interleave.Protocol.Cycles.Grouping.{IsOpenFrame, IsCycle}
use interleave.Protocol.Session.{Session}
use interleave.Protocol.Reader.{
  AssemblerError, cycle_limit, expected_prefix, expected_continuation, invalid_continuation,
  invalid_flush_stage, incomplete_flush_stage, incomplete_continuation, invalid_flush_continuation,
  incomplete_flush_continuation, incomplete_unit, error, ok, and_then, throw_if,
}
use interleave.Protocol.Results.{Holds, Holds-and_then, Holds-each, Holds-if, Holds-throw_if}
use interleave.Protocol.Assembler.{Host, FrontendUnit, Assembler, assemble, reset}
use interleave.Protocol.Releases.{
  fork, has_types, is_prefix_release, is_bare_sync, ends_in_flush, first_parsed, check_described,
  check_continuation, prefix_name, is_open_stage, accept_each, accept_unit, recover_unit,
  describe_messages, describe_unit, continue_bound, continuation, flush_stage, flush_more,
  flush_continuation, is_describe_prefix,
}
use interleave.Protocol.Announcements.{
  Prefix, propose_next, propose_first, propose, is_staged, has_flush_stages,
}
use interleave.Protocol.Releases.Acknowledged.{Acknowledges, reconcile_all, reconcile_all-AppliesTo}
use interleave.Protocol.Releases.Gathering.{Gathers, IsProposal, Proposes, GathersNow}
use interleave.Protocol.Releases.Messages.{
  assemble-Gathers, accept_each-Proposes, accept_query-Proposes,
}

-- Nothing is buffered.
pub record IsIdle (a : Assembler) : Type 0 where
  pub no_frames : a.frames ≡ []
  pub nothing_queued : a.backend_operations ≡ []

fork-IsIdle : (a : Assembler) → IsIdle (fork a)
unfolding fork
fork-IsIdle a = record { no_frames = refl; nothing_queued = refl }

IsIdle-Gathers : (a : Assembler) → IsIdle a → Gathers a.session [] a
IsIdle-Gathers a idle = record { held = idle.no_frames; applied = rw idle.nothing_queued refl }

module _ (h : Host) (a : Assembler) (idle : IsIdle a) where
  accept_each-cycle :
      (frames : List Bytes)
      → IsCycle frames
      → Holds (Proposes a.session frames) (accept_each h a none frames)
  accept_each-cycle frames (inl (query, e, kind)) =
      rw e (accept_query-Proposes h a.session query a kind refl)
  accept_each-cycle frames (inr (body, end, e, opened, ends)) =
      rw e (accept_each-Proposes h a.session body end [] a none opened ends (IsIdle-Gathers a idle))

  accept_unit-IsProposal :
      (refusal : AssemblerError) (frames : List Bytes)
      → IsCycle frames
      → Holds (IsProposal a.session frames) (accept_unit h refusal a frames)
  unfolding accept_unit
  accept_unit-IsProposal refusal frames c =
      Holds-and_then (Proposes a.session frames) _ (accept_each h a none frames) _
        (accept_each-cycle frames c) go
    where
      go :
          (r : Assembler × Option FrontendUnit)
          → Proposes a.session frames r
          → Holds
              (IsProposal a.session frames)
              (elim r.1 [ none ↦ error refusal | some unit ↦ ok (r.0, unit) ])
      go (b, none) k = absurd k
      go (b, some unit) k = k

  is_bare_sync-single :
      (frames : List Bytes) → is_bare_sync frames ≡ true → (frame : Bytes) × (frames ≡ frame ∷ [])
  is_bare_sync-single [] k = cc
  is_bare_sync-single (frame ∷ []) k = (frame, refl)
  is_bare_sync-single (frame ∷ next ∷ frames) k = cc

  recover_unit-IsProposal :
      (profile : Text) (previous : FrontendUnit) (frames : List Bytes)
      → Holds
          (IsProposal a.session frames)
          (and_then (recover_unit h profile previous frames) (λ unit. ok (a, unit)))
  unfolding recover_unit
  recover_unit-IsProposal profile previous frames = go (Bool-cases (is_bare_sync frames))
    where
      go :
          (is_bare_sync frames ≡ true) ⊎ (is_bare_sync frames ≡ false)
          → Holds
              (IsProposal a.session frames)
              (and_then (recover_unit h profile previous frames) (λ unit. ok (a, unit)))
      go (inl bare) = rw bare (record { whole = refl; unstarted = refl; applied = refl })
      go (inr more) = rw more tt

  continue_bound-IsProposal :
      (prefix : FrontendUnit) (name : Text) (frames : List Bytes)
      → IsCycle frames
      → Holds (IsProposal a.session frames) (continue_bound h a prefix name frames)
  unfolding continue_bound
  continue_bound-IsProposal prefix name [] c = tt
  continue_bound-IsProposal prefix name (x ∷ []) c = tt
  continue_bound-IsProposal prefix name (x ∷ y ∷ []) c = tt
  continue_bound-IsProposal prefix name (x ∷ y ∷ z ∷ w ∷ frames) c = tt
  continue_bound-IsProposal prefix name (bind ∷ run ∷ end ∷ []) c =
      Holds-each _
        (throw_if (not (has_types (codes "BES") (bind ∷ run ∷ end ∷ []))) expected_continuation) _
        (λ shaped. Holds-each _ (check_continuation bind run name) _ (λ checked.
          Holds-and_then _ (IsProposal a.session (bind ∷ run ∷ end ∷ []))
            (accept_unit h incomplete_continuation a (bind ∷ run ∷ end ∷ [])) _
            (accept_unit-IsProposal incomplete_continuation (bind ∷ run ∷ end ∷ []) c)
            (λ made k. record { whole = k.whole; unstarted = k.unstarted; applied = k.applied })))

  continuation-IsProposal :
      (prefix : FrontendUnit) (failed : Bool) (frames : List Bytes)
      → IsCycle frames
      → Holds (IsProposal a.session frames) (continuation h a prefix failed frames)
  unfolding continuation
  continuation-IsProposal prefix failed frames c =
      Holds-each _ (throw_if (not (a.bytes == 0)) invalid_continuation) _ (λ empty.
        Holds-each _ (prefix_name prefix) _ (λ name.
          Holds-if _ failed _ _ (recover_unit-IsProposal (codes "describe-flush-v1") prefix frames)
            (continue_bound-IsProposal prefix name frames c)))

  flush_stage-IsProposal :
      (frames : List Bytes)
      → IsCycle frames
      → Holds (IsProposal a.session frames) (flush_stage h a frames)
  unfolding flush_stage
  flush_stage-IsProposal frames c =
      Holds-each _ (throw_if (not (a.bytes == 0) || not (ends_in_flush frames)) invalid_flush_stage)
        _
        (λ shaped.
          Holds-and_then _ (IsProposal a.session frames)
            (accept_unit h incomplete_flush_stage a frames) _
            (accept_unit-IsProposal incomplete_flush_stage frames c)
            (λ made k. record { whole = k.whole; unstarted = k.unstarted; applied = k.applied }))

  flush_continuation-IsProposal :
      (previous : FrontendUnit) (failed : Bool) (frames : List Bytes)
      → IsCycle frames
      → Holds (IsProposal a.session frames) (flush_continuation h a previous failed frames)
  unfolding flush_continuation flush_more
  flush_continuation-IsProposal previous failed frames c =
      Holds-each _
        (throw_if (not (a.bytes == 0) || not (is_open_stage previous.stage))
          invalid_flush_continuation)
        _
        (λ shaped.
          Holds-if _ failed _ _ (recover_unit-IsProposal (codes "flush-stages-v1") previous frames)
            (Holds-and_then _ (IsProposal a.session frames)
              (accept_unit h incomplete_flush_continuation a frames) _
              (accept_unit-IsProposal incomplete_flush_continuation frames c)
              (λ made k. record { whole = k.whole; unstarted = k.unstarted; applied = k.applied })))

  prefix-types :
      (parse named end : Bytes)
      → is_prefix_release (parse ∷ named ∷ end ∷ []) ≡ true
      → IsOpenFrame parse × IsOpenFrame named
  unfolding text_eq
  prefix-types parse named end k = (ground arith, ground arith)

  describe_messages-IsProposal :
      (parse named end : Bytes)
      → IsOpenFrame parse
      → IsOpenFrame named
      → Holds
          (IsProposal a.session (parse ∷ named ∷ end ∷ []))
          (describe_messages h a parse named end)
  unfolding describe_messages reset
  describe_messages-IsProposal parse named end first second =
      Holds-and_then (GathersNow a.session (parse ∷ [])) _ (assemble h a parse) _
        (assemble-Gathers h a.session [] a parse first (IsIdle-Gathers a idle))
        (λ (b, unit) g. Holds-each _ (first_parsed b.backend_operations) _ (λ (name, statement).
          Holds-each _ (check_described named name) _ (λ checked.
            Holds-and_then (GathersNow a.session (parse ∷ named ∷ [])) _ (assemble h b named) _
              (assemble-Gathers h a.session (parse ∷ []) b named second g)
              (λ (c, other) g'. record { whole = refl; unstarted = refl; applied = g'.applied }))))

  describe_unit-IsProposal :
      (frames : List Bytes) → Holds (IsProposal a.session frames) (describe_unit h a frames)
  unfolding describe_unit
  describe_unit-IsProposal [] = tt
  describe_unit-IsProposal (x ∷ []) = tt
  describe_unit-IsProposal (x ∷ y ∷ []) = tt
  describe_unit-IsProposal (x ∷ y ∷ z ∷ w ∷ frames) = tt
  describe_unit-IsProposal (parse ∷ named ∷ end ∷ []) =
      Holds-throw_if _ (not (a.bytes == 0) || not (is_prefix_release (parse ∷ named ∷ end ∷ [])))
        expected_prefix _
        (λ shaped.
          let (first, second) = prefix-types parse named end (ground arith) in
          Holds-each _
            (throw_if (ltb a.session.max_buffered (length (concat (parse ∷ named ∷ end ∷ []))))
              cycle_limit)
            _ (λ small. describe_messages-IsProposal parse named end first second))

module _ (h : Host) (profile : ProtocolProfile) where
  propose_next-IsProposal :
      (a : Assembler) (idle : IsIdle a) (prefix : Prefix) (frames : List Bytes)
      → IsCycle frames
      → Holds (IsProposal a.session frames) (propose_next h profile a prefix frames)
  unfolding propose_next
  propose_next-IsProposal a idle prefix frames c =
      Holds-if _ (has_flush_stages profile) _ _
        (flush_continuation-IsProposal h a idle prefix.original (is_some prefix.error) frames c)
        (continuation-IsProposal h a idle prefix.original (is_some prefix.error) frames c)

  propose_first-IsProposal :
      (a : Assembler) (idle : IsIdle a) (frames : List Bytes)
      → IsCycle frames
      → Holds (IsProposal a.session frames) (propose_first h profile a frames)
  unfolding propose_first
  propose_first-IsProposal a idle frames c =
      Holds-if _ (is_staged profile && ends_in_flush frames) _ _
        (Holds-if _ (has_flush_stages profile && not (is_describe_prefix frames)) _ _
          (flush_stage-IsProposal h a idle frames c) (describe_unit-IsProposal h a idle frames))
        (accept_unit-IsProposal h a idle incomplete_unit frames c)

  -- What is proposed, where something is.
  abbrev Foretells : Session → List Bytes → Option (Assembler × FrontendUnit) → Type 0
  Foretells s frames none = Unit
  Foretells s frames (some made) = IsProposal s frames made

  propose-Foretells :
      (a : Assembler) (prefix : Option Prefix) (frames : List Bytes)
      → IsCycle frames
      → Holds (Foretells a.session frames) (propose h profile a prefix frames)
  unfolding propose fork
  propose-Foretells a none frames c =
      Holds-and_then (IsProposal a.session frames) (Foretells a.session frames)
        (propose_first h profile (fork a) frames) _
        (propose_first-IsProposal (fork a) (fork-IsIdle a) frames c) (λ made k. k)
  propose-Foretells a (some prefix) frames c =
      Holds-if (Foretells a.session frames) (not prefix.complete) _ _ tt (
        Holds-and_then (IsProposal a.session frames) (Foretells a.session frames)
          (propose_next h profile (fork a) prefix frames) _
          (propose_next-IsProposal (fork a) (fork-IsIdle a) prefix frames c) (λ made k. k))

  -- A release that is proposed for a cycle of the client's messages holds their bytes, and no others, in
  -- order. When the server acknowledges the release's operations one by one, none fails, and the session
  -- becomes the one that the proposal foretold on its fork.
  pub propose-acknowledged :
      (a b : Assembler) (prefix : Option Prefix) (frames acknowledgements : List Bytes)
      (unit : FrontendUnit)
      → IsCycle frames
      → propose h profile a prefix frames ≡ ok (some (b, unit))
      → Acknowledges unit.reconciliation.operations acknowledgements
      → (unit.bytes ≡ concat frames)
        × (reconcile_all a.session unit.protocol unit.reconciliation acknowledgements ≡ record {
          session = b.session;
          journal = record unit.reconciliation { index = length unit.reconciliation.operations };
          error = none;
        })
  propose-acknowledged a b prefix frames acknowledgements unit c e k =
      let p : IsProposal a.session frames (b, unit) =
        subst (Holds (Foretells a.session frames)) e (propose-Foretells a prefix frames c) in
      (
        p.whole,
        subst
            (λ j. reconcile_all a.session unit.protocol j acknowledgements ≡ record {
              session = b.session;
              journal = record j { index = length unit.reconciliation.operations };
              error = none;
            })
            (sym p.unstarted)
            (reconcile_all-AppliesTo unit.protocol unit.reconciliation.operations a.session
              b.session acknowledgements p.applied k),
      )
