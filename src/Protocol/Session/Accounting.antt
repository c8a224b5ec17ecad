-- ===== src/Protocol/Session/Accounting.antt =====
-- The bytes of the session's metadata are counted exactly by each change of it.
use interleave.Prelude.{
  ℕ, ◌+◌, ◌-◌, ◌≤◌, ◌≡◌, refl, ap, subst, Option, none, some, List, [], ◌∷◌, Text, Bytes, lookup,
  insert, length, ◌==◌, get_elem?, Bool-cases, inl, inr, arith, if◌then◌else◌,
}
use interleave.Types.{ProtocolKind}
use interleave.Protocol.Session.{
  Session, Statement, Portal, Target, statement_target, portal_target, BackendOperation, parsed,
  bound, closed, described, executed, statement_bytes, portal_bytes, entry_bytes, forget,
  remember_statement, remember_portal, forget_portals, keys, apply, fail_operation, settle,
  forget_unnamed, is_simple,
}
use interleave.Protocol.Session.Metered.{
  IsUnique, metered, insert-IsUnique, remove-IsUnique, metered-insert, metered-remove,
}

pub record IsMetered (s : Session) : Type 0 where
  pub statements : IsUnique s.statements
  pub portals : IsUnique s.portals
  pub exact :
      s.metadata_bytes ≡ metered statement_bytes s.statements + metered portal_bytes s.portals
  pub within : s.metadata_bytes ≤ s.max_buffered

pub forget-IsMetered :
    (s : Session) (target : Target) (name : Text) → IsMetered s → IsMetered (forget s target name)
unfolding forget
forget-IsMetered s statement_target name h =
    let removed = metered-remove statement_bytes name s.statements h.statements in
    let total = h.exact in
    let low = h.within in
    record {
      statements = remove-IsUnique name s.statements h.statements;
      portals = h.portals;
      exact = omega arith;
      within = omega arith;
    }
forget-IsMetered s portal_target name h =
    let removed = metered-remove portal_bytes name s.portals h.portals in
    let total = h.exact in
    let low = h.within in
    record {
      statements = h.statements;
      portals = remove-IsUnique name s.portals h.portals;
      exact = omega arith;
      within = omega arith;
    }

forget_portals-cons :
    (s : Session) (name : Text) (names : List Text)
    → forget_portals s (name ∷ names) ≡ forget_portals (forget s portal_target name) names
unfolding forget_portals
forget_portals-cons s name names = refl

forget_portals-IsMetered :
    (s : Session) (names : List Text) → IsMetered s → IsMetered (forget_portals s names)
forget_portals-IsMetered s [] h = unfold forget_portals in h
forget_portals-IsMetered s (name ∷ names) h = rw (forget_portals-cons s name names) (
    forget_portals-IsMetered (forget s portal_target name) names
      (forget-IsMetered s portal_target name h))

pub remember_statement-IsMetered :
    (s t : Session) (name : Text) (value : Statement)
    → IsMetered s
    → remember_statement s name value ≡ (t, none)
    → IsMetered t
unfolding remember_statement
remember_statement-IsMetered s t name value h e =
    let counted =
      s.metadata_bytes
      + (statement_bytes value + length name)
      - entry_bytes statement_bytes name (lookup name s.statements) in
    let grown = metered-insert statement_bytes name value s.statements in
    let total = h.exact in
    let same : record s { metadata_bytes = counted; statements = insert name value s.statements }
        ≡ t =
      ground arith in
    let room : counted ≤ s.max_buffered = ground arith in
    subst IsMetered same record {
      statements = insert-IsUnique name value s.statements h.statements;
      portals = h.portals;
      exact = omega arith;
      within = room;
    }

pub remember_portal-IsMetered :
    (s t : Session) (name : Text) (value : Portal)
    → IsMetered s
    → remember_portal s name value ≡ (t, none)
    → IsMetered t
unfolding remember_portal
remember_portal-IsMetered s t name value h e =
    let counted =
      s.metadata_bytes
      + (portal_bytes value + length name)
      - entry_bytes portal_bytes name (lookup name s.portals) in
    let grown = metered-insert portal_bytes name value s.portals in
    let total = h.exact in
    let same : record s { metadata_bytes = counted; portals = insert name value s.portals } ≡ t =
      ground arith in
    let room : counted ≤ s.max_buffered = ground arith in
    subst IsMetered same record {
      statements = h.statements;
      portals = insert-IsUnique name value s.portals h.portals;
      exact = omega arith;
      within = room;
    }

pub apply-IsMetered :
    (s t : Session) (operation : BackendOperation)
    → IsMetered s
    → apply s operation ≡ (t, none)
    → IsMetered t
unfolding apply
apply-IsMetered s t (parsed name value) h e = remember_statement-IsMetered s t name value h e
apply-IsMetered s t (bound name value) h e = remember_portal-IsMetered s t name value h e
apply-IsMetered s t (closed name target) h e =
    subst IsMetered (let same : forget s target name ≡ t = ap (λ r. r.0) e in same)
      (forget-IsMetered s target name h)
apply-IsMetered s t described h e = subst IsMetered (let same : s ≡ t = ap (λ r. r.0) e in same) h
apply-IsMetered s t executed h e = subst IsMetered (let same : s ≡ t = ap (λ r. r.0) e in same) h

pub fail_operation-IsMetered :
    (s : Session) (operation : Option BackendOperation)
    → IsMetered s
    → IsMetered (fail_operation s operation)
unfolding fail_operation
fail_operation-IsMetered s none h = h
fail_operation-IsMetered s (some (parsed [] value)) h = forget-IsMetered s statement_target [] h
fail_operation-IsMetered s (some (parsed (x ∷ xs) value)) h = h
fail_operation-IsMetered s (some (bound [] value)) h = forget-IsMetered s portal_target [] h
fail_operation-IsMetered s (some (bound (x ∷ xs) value)) h = h
fail_operation-IsMetered s (some (closed name target)) h = h
fail_operation-IsMetered s (some described) h = h
fail_operation-IsMetered s (some executed) h = h

pub settle-IsMetered :
    (protocol : ProtocolKind) (frame : Bytes) (s : Session)
    → IsMetered s
    → IsMetered (settle protocol frame s)
unfolding settle
settle-IsMetered protocol frame s h = go (get_elem? frame 5)
  where
    clean : IsMetered (forget_unnamed protocol s)
    clean = elim (Bool-cases (is_simple protocol)) [
      | inl unnamed ↦ rw unnamed (forget-IsMetered s statement_target [] h)
      | inr kept ↦ rw kept h
    ]

    go :
        (status : Option ℕ)
        → IsMetered (elim status [
          | none ↦ forget_unnamed protocol s
          | some n ↦
              if n == 73
              then forget_portals
                  (forget_unnamed protocol s)
                  (keys (forget_unnamed protocol s).portals)
              else forget_unnamed protocol s
        ])
    go none = clean
    go (some n) = elim (Bool-cases (n == 73)) [
      | inl idle ↦ rw idle (
          forget_portals-IsMetered (forget_unnamed protocol s)
            (keys (forget_unnamed protocol s).portals) clean)
      | inr busy ↦ rw busy clean
    ]
