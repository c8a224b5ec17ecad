-- ===== src/Protocol/Releases/Gathering.antt =====
-- What one message does to the operations that a release gathers.
use interleave.Prelude.{
  ℕ, ◌*◌, ◌≡◌, refl, sym, ap, subst, ◌∙◌, false, Option, none, some, List, [], ◌∷◌, ◌++◌, Text,
  Bytes, concat, leb, ◌==◌,
}
use interleave.Protocol.Session.{
  Session, SessionError, Statement, Portal, Target, BackendOperation, parsed, bound, closed,
  described, executed, remember_statement, remember_portal, apply,
}
use interleave.Protocol.Reader.{
  metadata_limit, malformed_target, error, ok, take_bytes, cstring, read_u16, read_i32, finish,
  skip_bind,
}
use interleave.Protocol.Results.{Holds, Holds-and_then, Holds-each, Holds-if}
use interleave.Protocol.Assembler.{
  Host, FrontendUnit, Assembler, find_statement, find_portal, find_target, install_statement,
  install_portal, name_target, hex, accept_parse, accept_bind, accept_execute, accept_named,
  target_of,
}
use interleave.Protocol.Releases.Acknowledged.{AppliesTo, AppliesTo-snoc}

-- The messages that an assembler has buffered, and what its operations have done since `s`.
pub record Gathers (s : Session) (frames : List Bytes) (a : Assembler) : Type 0 where
  pub held : a.frames ≡ frames
  pub applied : AppliesTo s a.backend_operations a.session

-- A unit that holds the messages, and whose operations lead from `s` to the session that is left.
pub record IsProposal (s : Session) (frames : List Bytes) (made : Assembler × FrontendUnit)
    : Type 0 where
  pub whole : made.1.bytes ≡ concat frames
  pub unstarted :
      made.1.reconciliation
      ≡ record { operations = made.1.reconciliation.operations; index = 0; failed = false }
  pub applied : AppliesTo s made.1.reconciliation.operations made.0.session

abbrev pub GathersNow : Session → List Bytes → Assembler × Option FrontendUnit → Type 0
GathersNow s frames (a, unit) = Gathers s frames a

abbrev pub Proposes : Session → List Bytes → Assembler × Option FrontendUnit → Type 0
Proposes s frames (a, none) = ⊥
Proposes s frames (a, some unit) = IsProposal s frames (a, unit)

-- One more operation, and the session that it leads to.
record Adds (a : Assembler) (operation : BackendOperation) (b : Assembler) : Type 0 where
  held : b.frames ≡ a.frames
  added : b.backend_operations ≡ a.backend_operations ++ operation ∷ []
  fine : (apply a.session operation).1 ≡ none
  applied : b.session ≡ (apply a.session operation).0

Gathers-Adds :
    (s : Session) (frames : List Bytes) (a b : Assembler) (operation : BackendOperation)
    → Gathers s frames a
    → Adds a operation b
    → Gathers s frames b
Gathers-Adds s frames a b operation g d = record {
  held = d.held ∙ g.held;
  applied =
      subst (λ operations. AppliesTo s operations b.session) (sym d.added)
        (subst (AppliesTo s (a.backend_operations ++ operation ∷ [])) (sym d.applied)
          (AppliesTo-snoc s a.backend_operations a.session operation g.applied d.fine));
}

-- What `install_statement` and `install_portal` leave alone.
record Installs (a : Assembler) (operation : BackendOperation) (b : Assembler) : Type 0 where
  held : b.frames ≡ a.frames
  same : b.backend_operations ≡ a.backend_operations
  fine : (apply a.session operation).1 ≡ none
  applied : b.session ≡ (apply a.session operation).0

install_statement-Installs :
    (a : Assembler) (name : Text) (value : Statement)
    → Holds (Installs a (parsed name value)) (install_statement a name value)
unfolding install_statement apply
install_statement-Installs a name value = go (remember_statement a.session name value).1 refl
  where
    t : Session
    t = (remember_statement a.session name value).0

    go :
        (refusal : Option SessionError)
        → (remember_statement a.session name value).1 ≡ refusal
        → Holds
            (Installs a (parsed name value))
            (elim refusal [ some e ↦ error metadata_limit | none ↦ ok (record a { session = t }) ])
    go (some e) x = tt
    go none x = record { held = refl; same = refl; fine = x; applied = refl }

install_portal-Installs :
    (a : Assembler) (name : Text) (value : Portal)
    → Holds (Installs a (bound name value)) (install_portal a name value)
unfolding install_portal apply
install_portal-Installs a name value = go (remember_portal a.session name value).1 refl
  where
    t : Session
    t = (remember_portal a.session name value).0

    go :
        (refusal : Option SessionError)
        → (remember_portal a.session name value).1 ≡ refusal
        → Holds
            (Installs a (bound name value))
            (elim refusal [ some e ↦ error metadata_limit | none ↦ ok (record a { session = t }) ])
    go (some e) x = tt
    go none x = record { held = refl; same = refl; fine = x; applied = refl }

module _ (h : Host) (s : Session) (frames : List Bytes) where
  adds :
      (a b c : Assembler) (operation : BackendOperation)
      → Gathers s frames a
      → Installs a operation b
      → c.frames ≡ b.frames
      → c.backend_operations ≡ b.backend_operations ++ operation ∷ []
      → c.session ≡ b.session
      → Gathers s frames c
  adds a b c operation g i held added same = Gathers-Adds s frames a c operation g (record {
    held = held ∙ i.held;
    added = added ∙ ap (λ l. l ++ operation ∷ []) i.same;
    fine = i.fine;
    applied = same ∙ i.applied;
  })

  pub accept_parse-Gathers :
      (a : Assembler) (rest : Bytes)
      → Gathers s frames a
      → Holds (Gathers s frames) (accept_parse h a rest)
  unfolding accept_parse
  accept_parse-Gathers a rest g = Holds-each _ (cstring rest) _ (λ (name, r).
      Holds-each _ (cstring r) _ (λ (sql, r'). Holds-each _ (read_u16 r') _ (λ (count, r'').
        Holds-each _ (take_bytes (count * 4) r'') _ (λ (types, end).
          Holds-each _ (finish end) _ (λ done.
            Holds-and_then _ (Gathers s frames) (install_statement a (hex name) _) _
              (install_statement-Installs a (hex name) _)
              (λ b i. adds a b _ _ g i refl refl refl))))))

  pub accept_bind-Gathers :
      (a : Assembler) (rest : Bytes)
      → Gathers s frames a
      → Holds (Gathers s frames) (accept_bind h a rest)
  unfolding accept_bind
  accept_bind-Gathers a rest g = Holds-each _ (cstring rest) _ (λ (name, r).
      Holds-each _ (cstring r) _ (λ (source, r').
        Holds-each _ (find_statement a.session (hex source)) _ (λ statement.
          Holds-each _ (skip_bind r') _ (λ done.
            Holds-and_then _ (Gathers s frames) (install_portal a (hex name) _) _
              (install_portal-Installs a (hex name) _) (λ b i. adds a b _ _ g i refl refl refl)))))

  pub accept_execute-Gathers :
      (a : Assembler) (rest : Bytes)
      → Gathers s frames a
      → Holds (Gathers s frames) (accept_execute h a rest)
  unfolding accept_execute apply
  accept_execute-Gathers a rest g = Holds-each _ (cstring rest) _ (λ (name, r).
      Holds-each _ (find_portal a.session (hex name)) _ (λ portal.
        Holds-each _ (read_i32 r) _ (λ (count, end). Holds-each _ (finish end) _ (λ done.
          Holds-if (Gathers s frames) (leb 2147483648 count) _ _ tt (
            Gathers-Adds s frames a _ executed g
              (record { held = refl; added = refl; fine = refl; applied = refl }))))))

  name_target-Gathers :
      (a : Assembler) (type : ℕ) (target : Target) (name : Text)
      → Gathers s frames a
      → Holds (Gathers s frames) (name_target h a type target name)
  unfolding name_target apply
  name_target-Gathers a type target name g =
      Holds-each _ (find_target h a.session target name) _ (λ (statement, identity).
        Holds-if (Gathers s frames) (type == 67) _ _
          (Gathers-Adds s frames a _ (closed name target) g
            (record { held = refl; added = refl; fine = refl; applied = refl }))
          (Gathers-Adds s frames a _ described g
            (record { held = refl; added = refl; fine = refl; applied = refl })))

  pub accept_named-Gathers :
      (a : Assembler) (type : ℕ) (rest : Bytes)
      → Gathers s frames a
      → Holds (Gathers s frames) (accept_named h a type rest)
  unfolding accept_named
  accept_named-Gathers a type rest g = Holds-each _ (take_bytes 1 rest) _ (λ (byte, r).
      Holds-each _ (cstring r) _
        (λ (name, end). Holds-each _ (finish end) _ (λ done. go (hex name) (target_of h byte))))
    where
      go :
          (name : Text) (target : Option Target)
          → Holds
              (Gathers s frames)
              (elim target [ none ↦ error malformed_target | some t ↦ name_target h a type t name ])
      go name none = tt
      go name (some t) = name_target-Gathers a type t name g
