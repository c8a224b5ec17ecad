-- ===== src/Protocol/Releases/Acknowledged.antt =====
-- Operations that the server acknowledges one by one are installed as they were proposed.
use interleave.Prelude.{
  ℕ, suc, ◌≡◌, refl, sym, ap, subst, ◌∙◌, true, false, none, some, List, [], ◌∷◌, ◌++◌, Bytes,
  length, get_elem?, ◌==◌, arith, append-nil, length-append, append_assoc,
}
use interleave.Types.{ProtocolKind}
use interleave.Protocol.Session.{
  Session, BackendOperation, parsed, bound, closed, described, executed, Journal, Reconciled,
  is_terminal, apply, reconcile_operation, reconcile, kind_of,
}

-- Operations that lead from a session to another without an error.
abbrev pub AppliesTo : Session → List BackendOperation → Session → Type 0
AppliesTo s [] t = s ≡ t
AppliesTo s (operation ∷ operations) t =
    ((apply s operation).1 ≡ none) × AppliesTo (apply s operation).0 operations t

pub AppliesTo-snoc :
    (s : Session) (operations : List BackendOperation) (t : Session) (operation : BackendOperation)
    → AppliesTo s operations t
    → (apply t operation).1 ≡ none
    → AppliesTo s (operations ++ operation ∷ []) (apply t operation).0
AppliesTo-snoc s [] t operation h e =
    subst (λ u. ((apply u operation).1 ≡ none) × ((apply u operation).0 ≡ (apply t operation).0))
      (sym h) (e, refl)
AppliesTo-snoc s (first ∷ operations) t operation (fine, h) e =
    (fine, AppliesTo-snoc (apply s first).0 operations t operation h e)

-- One message for each operation, which ends it.
abbrev pub Acknowledges : List BackendOperation → List Bytes → Type 0
Acknowledges [] [] = Unit
Acknowledges [] (frame ∷ frames) = ⊥
Acknowledges (operation ∷ operations) [] = ⊥
Acknowledges (operation ∷ operations) (frame ∷ frames) =
    (is_terminal operation frame ≡ true) × Acknowledges operations frames

-- The messages in order, up to the first error.
unfoldable pub reconcile_all : Session → ProtocolKind → Journal → List Bytes → Reconciled
reconcile_all s protocol j [] = record { session = s; journal = j; error = none }
reconcile_all s protocol j (frame ∷ frames) =
    let r = reconcile s protocol j frame in
    elim r.error [ some e ↦ r | none ↦ reconcile_all r.session protocol r.journal frames ]

is_terminal-kind :
    (operation : BackendOperation) (frame : Bytes)
    → is_terminal operation frame ≡ true
    → ((kind_of frame == 69) ≡ false) × ((kind_of frame == 90) ≡ false)
unfolding is_terminal
is_terminal-kind (parsed name s) frame h = (ground arith, ground arith)
is_terminal-kind (bound name p) frame h = (ground arith, ground arith)
is_terminal-kind (closed name target) frame h = (ground arith, ground arith)
is_terminal-kind described frame h = (ground arith, ground arith)
is_terminal-kind executed frame h = (ground arith, ground arith)

module _ (s : Session) (protocol : ProtocolKind) (j : Journal) (operation : BackendOperation)
    (frame : Bytes) where
  reconcile-acknowledged :
      j.failed ≡ false
      → get_elem? j.operations j.index ≡ some operation
      → is_terminal operation frame ≡ true
      → (apply s operation).1 ≡ none
      → reconcile s protocol j frame ≡ record {
        session = (apply s operation).0;
        journal = record j { index = suc j.index };
        error = none;
      }
  unfolding reconcile reconcile_operation
  reconcile-acknowledged going at ended fine =
      let (right, open') = is_terminal-kind operation frame ended in ground arith

get_elem?-middle :
    (xs : List BackendOperation) (x : BackendOperation) (ys : List BackendOperation)
    → get_elem? (xs ++ x ∷ ys) (length xs) ≡ some x
get_elem?-middle [] x ys = refl
get_elem?-middle (z ∷ xs) x ys = get_elem?-middle xs x ys

abbrev journal : List BackendOperation → ℕ → Journal
journal operations index = record { operations = operations; index = index; failed = false }

abbrev settled : Session → List BackendOperation → Reconciled
settled t operations = record {
  session = t;
  journal = journal operations (length operations);
  error = none;
}

reconcile_all-step :
    (s t : Session) (protocol : ProtocolKind) (j k : Journal) (frame : Bytes) (frames : List Bytes)
    → reconcile s protocol j frame ≡ record { session = t; journal = k; error = none }
    → reconcile_all s protocol j (frame ∷ frames) ≡ reconcile_all t protocol k frames
unfolding reconcile_all
reconcile_all-step s t protocol j k frame frames e =
    ap
      (λ (r : Reconciled).
        let out : Reconciled = elim r.error [
          | some x ↦ r
          | none ↦ reconcile_all r.session protocol r.journal frames
        ] in
        out)
      e

module _ (protocol : ProtocolKind) where
  reconcile_all-after :
      (done operations : List BackendOperation) (s t : Session) (frames : List Bytes)
      → AppliesTo s operations t
      → Acknowledges operations frames
      → reconcile_all s protocol (journal (done ++ operations) (length done)) frames
        ≡ settled t (done ++ operations)
  unfolding reconcile_all
  reconcile_all-after done [] s t [] h k = rw (append-nil done) (ap (λ u. settled u done) h)
  reconcile_all-after done [] s t (frame ∷ frames) h k = elim k [ ]
  reconcile_all-after done (operation ∷ operations) s t [] h k = elim k [ ]
  reconcile_all-after done (operation ∷ operations) s t (frame ∷ frames) (fine, h) (ended, k) =
      let j = journal (done ++ operation ∷ operations) (length done) in
      let at = get_elem?-middle done operation operations in
      let step = reconcile-acknowledged s protocol j operation frame refl at ended fine in
      let rest =
        reconcile_all-after (done ++ operation ∷ []) operations (apply s operation).0 t frames h
          k in
      let whole = append_assoc done (operation ∷ []) operations in
      let long : length (done ++ operation ∷ []) ≡ suc (length done) =
        length-append done (operation ∷ []) ∙ omega arith in
      reconcile_all-step s (apply s operation).0 protocol j (record j { index = suc j.index }) frame
        frames step
      ∙ subst
          (λ n.
            reconcile_all (apply s operation).0 protocol
              (journal (done ++ operation ∷ operations) n) frames
            ≡ settled t (done ++ operation ∷ operations))
          long
          (subst
            (λ all.
              reconcile_all (apply s operation).0 protocol
                (journal all (length (done ++ operation ∷ []))) frames
              ≡ settled t all)
            whole rest)

  -- Messages that acknowledge a unit's operations leave the session that these lead to.
  pub reconcile_all-AppliesTo :
      (operations : List BackendOperation) (s t : Session) (frames : List Bytes)
      → AppliesTo s operations t
      → Acknowledges operations frames
      → reconcile_all s protocol (journal operations 0) frames ≡ settled t operations
  reconcile_all-AppliesTo operations s t frames h k =
      reconcile_all-after [] operations s t frames h k
