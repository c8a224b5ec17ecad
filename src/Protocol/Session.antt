-- ===== src/Protocol/Session.antt =====
-- protocol/frontend.ts: the metadata that a FrontendAssembler keeps for a session, and what the
-- server's acknowledgements do to it.
mod Metered
pub mod Accounting
pub mod Reconciliation
mod Tests
use interleave.Prelude.{
  ℕ, zero, suc, ◌+◌, ◌-◌, ◌≤◌, ◌≡◌, Bool, true, false, ◌&&◌, ◌||◌, not, Option, none, some, List,
  [], ◌∷◌, Text, Bytes, Dict, lookup, insert, remove, length, map, ltb, ◌==◌, get_elem?,
  if◌then◌else◌,
}
use interleave.Types.{ProtocolKind, simple, extended}
use interleave.Search.Explore.{choice_bytes}

pub record Statement : Type 0 where
  pub sql : Text
  pub identity : Text

pub record Portal : Type 0 where
  pub statement : Statement
  pub identity : Text

pub data Target : Type 0 where
  statement_target portal_target : Target

pub data BackendOperation : Type 0 where
  parsed : Text → Statement → BackendOperation
  bound : Text → Portal → BackendOperation
  closed : Text → Target → BackendOperation
  described executed : BackendOperation

-- A unit's `reconciliation`.
pub record Journal : Type 0 where
  pub operations : List BackendOperation
  pub index : ℕ
  pub failed : Bool

pub record Session : Type 0 where
  pub statements : Dict Statement
  pub portals : Dict Portal
  pub metadata_bytes : ℕ
  pub max_buffered : ℕ

pub data SessionError : Type 0 where
  incomplete inconsistent unexpected metadata_limit : SessionError

-- The bytes of the JSON of a statement, an object of two texts.
unfoldable pub statement_bytes : Statement → ℕ
statement_bytes s = 20 + choice_bytes s.sql + choice_bytes s.identity

-- The bytes of the JSON of a portal, an object of a statement and a text.
unfoldable pub portal_bytes : Portal → ℕ
portal_bytes p = 26 + statement_bytes p.statement + choice_bytes p.identity

-- The bytes of an entry; names are hexadecimal, a byte for each code unit.
abbrev pub entry_bytes {ℓ} : {V : Type ℓ} → (V → ℕ) → Text → Option V → ℕ
entry_bytes size name none = 0
entry_bytes size name (some v) = size v + length name

unfoldable pub forget : Session → Target → Text → Session
forget s statement_target name = record s {
  metadata_bytes = s.metadata_bytes - entry_bytes statement_bytes name (lookup name s.statements);
  statements = remove name s.statements;
}
forget s portal_target name = record s {
  metadata_bytes = s.metadata_bytes - entry_bytes portal_bytes name (lookup name s.portals);
  portals = remove name s.portals;
}

-- `remember` for a statement; the limit is tested when the bytes have been counted.
unfoldable pub remember_statement : Session → Text → Statement → Session × Option SessionError
remember_statement s name value =
    let counted =
      s.metadata_bytes
      + (statement_bytes value + length name)
      - entry_bytes statement_bytes name (lookup name s.statements) in
    if ltb s.max_buffered counted
    then (record s { metadata_bytes = counted }, some metadata_limit)
    else (record s { metadata_bytes = counted; statements = insert name value s.statements }, none)

-- `remember` for a portal.
unfoldable pub remember_portal : Session → Text → Portal → Session × Option SessionError
remember_portal s name value =
    let counted =
      s.metadata_bytes
      + (portal_bytes value + length name)
      - entry_bytes portal_bytes name (lookup name s.portals) in
    if ltb s.max_buffered counted
    then (record s { metadata_bytes = counted }, some metadata_limit)
    else (record s { metadata_bytes = counted; portals = insert name value s.portals }, none)

unfoldable pub forget_portals : Session → List Text → Session
forget_portals s [] = s
forget_portals s (name ∷ names) = forget_portals (forget s portal_target name) names

abbrev pub keys {ℓ} : {V : Type ℓ} → Dict V → List Text
keys [] = []
keys ((name, v) ∷ m) = name ∷ keys m

abbrev pub kind_of : Bytes → ℕ
kind_of [] = 0
kind_of (t ∷ fields) = t

-- `'123'.includes(type)`
abbrev is_acknowledgement : Bytes → Bool
is_acknowledgement frame = kind_of frame == 49 || kind_of frame == 50 || kind_of frame == 51

-- Whether the message ends the operation.
unfoldable pub is_terminal : BackendOperation → Bytes → Bool
is_terminal (parsed name s) frame = kind_of frame == 49
is_terminal (bound name p) frame = kind_of frame == 50
is_terminal (closed name target) frame = kind_of frame == 51
is_terminal described frame = kind_of frame == 84 || kind_of frame == 110
is_terminal executed frame = kind_of frame == 67 || kind_of frame == 73 || kind_of frame == 115

-- What an acknowledged operation installs or drops.
unfoldable pub apply : Session → BackendOperation → Session × Option SessionError
apply s (parsed name value) = remember_statement s name value
apply s (bound name value) = remember_portal s name value
apply s (closed name target) = (forget s target name, none)
apply s described = (s, none)
apply s executed = (s, none)

-- An error destroys the unnamed object that the operation was to replace.
unfoldable pub fail_operation : Session → Option BackendOperation → Session
fail_operation s none = s
fail_operation s (some (parsed [] value)) = forget s statement_target []
fail_operation s (some (parsed (x ∷ xs) value)) = s
fail_operation s (some (bound [] value)) = forget s portal_target []
fail_operation s (some (bound (x ∷ xs) value)) = s
fail_operation s (some (closed name target)) = s
fail_operation s (some described) = s
fail_operation s (some executed) = s

abbrev is_simple : ProtocolKind → Bool
is_simple simple = true
is_simple extended = false

abbrev forget_unnamed : ProtocolKind → Session → Session
forget_unnamed protocol s = if is_simple protocol then forget s statement_target [] else s

-- ReadyForQuery; outside a transaction block all portals are gone.
unfoldable pub settle : ProtocolKind → Bytes → Session → Session
settle protocol frame s =
    let t = forget_unnamed protocol s in
    elim (get_elem? frame 5) [
      | none ↦ t
      | some status ↦ if status == 73 then forget_portals t (keys t.portals) else t
    ]

pub record Reconciled : Type 0 where
  pub session : Session
  pub journal : Journal
  pub error : Option SessionError

unfoldable pub reconcile_operation : Session → Journal → BackendOperation → Bytes → Reconciled
reconcile_operation s j operation frame =
    if is_terminal operation frame
    then (let (t, error) = apply s operation in
        elim error [
          | none ↦ record { session = t; journal = record j { index = suc j.index }; error = none }
          | some e ↦ record { session = t; journal = j; error = some e }
        ])
    else record {
      session = s;
      journal = j;
      error = if is_acknowledgement frame then some inconsistent else none;
    }

unfoldable pub reconcile : Session → ProtocolKind → Journal → Bytes → Reconciled
reconcile s protocol j frame =
    if kind_of frame == 69
    then record {
      session = fail_operation s (get_elem? j.operations j.index);
      journal = record j { failed = true };
      error = none;
    }
    else if kind_of frame == 90
    then (if not j.failed && not (j.index == length j.operations)
        then record { session = s; journal = j; error = some incomplete }
        else record { session = settle protocol frame s; journal = j; error = none })
    else elim (if j.failed then none else get_elem? j.operations j.index) [
      | none ↦ record {
        session = s;
        journal = j;
        error = if is_acknowledgement frame then some unexpected else none;
      }
      | some operation ↦ reconcile_operation s j operation frame
    ]
