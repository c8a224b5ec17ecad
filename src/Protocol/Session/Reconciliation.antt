-- ===== src/Protocol/Session/Reconciliation.antt =====
-- The metadata is counted exactly, whatever the server acknowledges.
use interleave.Prelude.{
  ◌≡◌, ap, subst, true, false, Option, none, some, Bytes, length, ◌==◌, get_elem?, Bool-cases,
  Option-cases, inl, inr, arith, if◌then◌else◌,
}
use interleave.Types.{ProtocolKind}
use interleave.Protocol.Session.{
  Session, SessionError, BackendOperation, Journal, is_terminal, apply, fail_operation, settle,
  reconcile_operation, reconcile, kind_of,
}
use interleave.Protocol.Session.Accounting.{
  IsMetered, apply-IsMetered, fail_operation-IsMetered, settle-IsMetered,
}

module _ (s : Session) (j : Journal) (operation : BackendOperation) (frame : Bytes) where
  reconcile_operation-other :
      is_terminal operation frame ≡ false → (reconcile_operation s j operation frame).session ≡ s
  unfolding reconcile_operation
  reconcile_operation-other h = ground arith

  reconcile_operation-applied :
      is_terminal operation frame ≡ true
      → (apply s operation).1 ≡ none
      → (reconcile_operation s j operation frame).session ≡ (apply s operation).0
  unfolding reconcile_operation
  reconcile_operation-applied h e = ground arith

  reconcile_operation-failed :
      is_terminal operation frame ≡ true
      → (e : SessionError) → (apply s operation).1 ≡ some e
      → (reconcile_operation s j operation frame).error ≡ some e
  unfolding reconcile_operation
  reconcile_operation-failed h e a = ground arith

reconcile_operation-IsMetered :
    (s : Session) (j : Journal) (operation : BackendOperation) (frame : Bytes)
    → IsMetered s
    → (reconcile_operation s j operation frame).error ≡ none
    → IsMetered (reconcile_operation s j operation frame).session
reconcile_operation-IsMetered s j operation frame h fine =
    elim (Bool-cases (is_terminal operation frame)) [
      | inr other ↦ rw (reconcile_operation-other s j operation frame other) h
      | inl ended ↦ elim (Option-cases (apply s operation).1) [
        | inr (e, failed) ↦
            absurd (
              let x = reconcile_operation-failed s j operation frame ended e failed in ground arith)
        | inl applied ↦ rw (reconcile_operation-applied s j operation frame ended applied) (
            apply-IsMetered s (apply s operation).0 operation h
              (ap (λ e. ((apply s operation).0, e)) applied))
      ]
    ]

-- The operation that a message may acknowledge.
abbrev current : Journal → Option BackendOperation
current j = if j.failed then none else get_elem? j.operations j.index

module _ (s : Session) (protocol : ProtocolKind) (j : Journal) (frame : Bytes) where
  reconcile-error :
      (kind_of frame == 69) ≡ true
      → (reconcile s protocol j frame).session ≡ fail_operation s (get_elem? j.operations j.index)
  unfolding reconcile
  reconcile-error h = ground arith

  reconcile-ready :
      (kind_of frame == 90) ≡ true
      → (reconcile s protocol j frame).error ≡ none
      → (reconcile s protocol j frame).session ≡ settle protocol frame s
  unfolding reconcile
  reconcile-ready h fine = ground arith

  reconcile-idle :
      (kind_of frame == 69) ≡ false
      → (kind_of frame == 90) ≡ false
      → current j ≡ none
      → (reconcile s protocol j frame).session ≡ s
  unfolding reconcile
  reconcile-idle h h' e = ground arith

  reconcile-current :
      (operation : BackendOperation)
      → (kind_of frame == 69) ≡ false
      → (kind_of frame == 90) ≡ false
      → current j ≡ some operation
      → reconcile s protocol j frame ≡ reconcile_operation s j operation frame
  unfolding reconcile
  reconcile-current operation h h' e = ground arith

  -- Where a session's metadata is counted exactly and within the limit, every message of the server
  -- that is reconciled without an error leaves it so: the count is the bytes of the statements and
  -- portals that are installed, each name once.
  pub reconcile-IsMetered :
      IsMetered s
      → (reconcile s protocol j frame).error ≡ none
      → IsMetered (reconcile s protocol j frame).session
  reconcile-IsMetered h fine = elim (Bool-cases (kind_of frame == 69)) [
    | inl wrong ↦
        rw (reconcile-error wrong) (fail_operation-IsMetered s (get_elem? j.operations j.index) h)
    | inr right ↦ elim (Bool-cases (kind_of frame == 90)) [
      | inl ended ↦ rw (reconcile-ready ended fine) (settle-IsMetered protocol frame s h)
      | inr open' ↦ elim (Option-cases (current j)) [
        | inl e ↦ rw (reconcile-idle right open' e) h
        | inr (operation, e) ↦
            let same = reconcile-current operation right open' e in
            rw same (
              reconcile_operation-IsMetered s j operation frame h
                (subst (λ r. r.error ≡ none) same fine))
      ]
    ]
  ]

  -- A unit that did not fail ends only when the server has acknowledged all of its operations.
  pub reconcile_whole :
      (kind_of frame ≡ 90)
      → j.failed ≡ false
      → (reconcile s protocol j frame).error ≡ none
      → j.index ≡ length j.operations
  unfolding reconcile
  reconcile_whole ready going fine = ground arith
