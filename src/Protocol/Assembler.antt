-- ===== src/Protocol/Assembler.antt =====
-- protocol/frontend.ts: FrontendAssembler.accept with what it buffers. A throw ends the
-- session, so the variables that it leaves are not modelled.
pub mod Metadata
mod Tests
use interleave.Prelude.{
  ℕ, zero, suc, ◌+◌, ◌-◌, ◌*◌, ◌/◌, ◌%◌, ◌≤◌, ◌≡◌, Bool, true, false, ◌&&◌, ◌||◌, not, Option, none,
  some, List, [], ◌∷◌, ◌++◌, map, Text, Bytes, codes, text_eq, decimal, lookup, length, take, drop,
  filter, concat, has, ltb, leb, ◌==◌, if◌then◌else◌,
}
use interleave.Types.{ProtocolKind, StepStage, simple, extended}
use interleave.Protocol.Cycles.{
  type_of, is_flush, is_sync, is_query, is_extended, is_copy, is_empty,
}
use interleave.Protocol.Messages.{split_zero, u16}
use interleave.Protocol.Session.{
  Session, Statement, Portal, BackendOperation, parsed, bound, closed, described, executed, Target,
  statement_target, portal_target, Journal, remember_statement, remember_portal, forget,
}
use interleave.Protocol.Reader.{
  AssemblerError, early_flush, copy_data, simple_in_cycle, unsupported_message,
  flush_without_messages, cycle_limit, malformed_fields, malformed_string, trailing_bytes,
  malformed_bind, malformed_execute, malformed_target, unknown_statement, unknown_portal,
  metadata_limit, Result, error, ok, and_then, take_bytes, cstring, read_u16, word, read_i32,
  finish, skip_formats, skip_values, skip_bind,
}

-- The hashes, of bytes, of a text, of the JSON of `['extended', identities]` and of the JSON of a list
-- of texts, and the decoding.
pub record Host : Type 0 where
  pub hash : Bytes → Text
  pub hash_text : Text → Text
  pub hash_extended : List Text → Text
  pub hash_texts : List Text → Text
  pub utf8 : Bytes → Text

pub record Operation : Type 0 where
  pub sql : Text
  pub identity : Text
  pub statement : Text

pub record FrontendUnit : Type 0 where
  pub protocol : ProtocolKind
  pub sql : Text
  pub fingerprint : Text
  pub bytes : Bytes
  pub stage : Option StepStage
  pub statement_name : Option Text
  pub reconciliation : Journal

pub record Assembler : Type 0 where
  pub session : Session
  pub frames : List Bytes
  pub backend_operations : List BackendOperation
  pub executions : List Operation
  pub dependencies : List Text
  pub operations : List Operation
  pub bytes : ℕ
  pub flushes : Bool

abbrev hex_digit : ℕ → ℕ
hex_digit n = if ltb n 10 then 48 + n else 87 + n

-- `toString('hex')`
unfoldable pub hex : Bytes → Text
hex [] = []
hex (b ∷ bs) = hex_digit (b / 16) ∷ hex_digit (b % 16) ∷ hex bs

unfoldable pub find_statement : Session → Text → Result Statement
find_statement s name = elim (lookup name s.statements) [
  | none ↦ error unknown_statement
  | some v ↦ ok v
]

unfoldable pub find_portal : Session → Text → Result Portal
find_portal s name = elim (lookup name s.portals) [ none ↦ error unknown_portal | some v ↦ ok v ]

unfoldable pub install_statement : Assembler → Text → Statement → Result Assembler
install_statement a name value =
    let (session, refusal) = remember_statement a.session name value in
    elim refusal [ some e ↦ error metadata_limit | none ↦ ok (record a { session = session }) ]

unfoldable pub install_portal : Assembler → Text → Portal → Result Assembler
install_portal a name value =
    let (session, refusal) = remember_portal a.session name value in
    elim refusal [ some e ↦ error metadata_limit | none ↦ ok (record a { session = session }) ]

abbrev add_operation : Operation → BackendOperation → Assembler → Assembler
add_operation operation backend a = record a {
  operations = a.operations ++ operation ∷ [];
  backend_operations = a.backend_operations ++ backend ∷ [];
}

-- The operations that an execution does not depend on, or all where there is no execution.
unfoldable pub others : Assembler → List Operation
others a =
    if is_empty a.executions
    then a.operations
    else filter (λ (o : Operation). not (has o.identity a.dependencies)) a.operations

-- Each statement that was not named before, once.
unfoldable pub additional : List Text → List Operation → List Operation
additional named [] = []
additional named (o ∷ os) =
    let later = additional (o.statement ∷ named) os in
    if has o.statement named then later else o ∷ later

-- `join('; ')`
unfoldable pub join : List Text → Text
join [] = []
join (t ∷ []) = t
join (t ∷ u ∷ us) = t ++ (codes "; " ++ join (u ∷ us))

unfoldable pub reset : Assembler → Assembler
reset a = record a {
  frames = [];
  backend_operations = [];
  executions = [];
  dependencies = [];
  operations = [];
  bytes = 0;
}

module _ (h : Host) where
  unfoldable pub accept_parse : Assembler → Bytes → Result Assembler
  accept_parse a rest = and_then (cstring rest) (λ (name, r). and_then (cstring r) (λ (sql, r').
      and_then (read_u16 r') (λ (count, r''). and_then (take_bytes (count * 4) r'') (λ (types, end).
        and_then (finish end) (λ done.
          let value : Statement = record {
            sql = h.utf8 sql;
            identity = h.hash (sql ++ 0 ∷ types);
          } in
          and_then (install_statement a (hex name) value) (λ b. ok (
            add_operation
              (record {
                sql = value.sql;
                identity = codes "parse:" ++ value.identity;
                statement = value.identity;
              })
              (parsed (hex name) value) b)))))))

  unfoldable pub accept_bind : Assembler → Bytes → Result Assembler
  accept_bind a rest = and_then (cstring rest) (λ (name, r). and_then (cstring r) (λ (source, r').
      and_then (find_statement a.session (hex source)) (λ statement.
        and_then (skip_bind r') (λ done.
          let value : Portal = record {
            statement = statement;
            identity = h.hash_text (statement.identity ++ 58 ∷ h.hash r');
          } in
          and_then (install_portal a (hex name) value) (λ b. ok (
            add_operation
              (record {
                sql = statement.sql;
                identity = codes "bind:" ++ value.identity;
                statement = statement.identity;
              })
              (bound (hex name) value) b))))))

  unfoldable pub accept_execute : Assembler → Bytes → Result Assembler
  accept_execute a rest = and_then (cstring rest) (λ (name, r).
      and_then (find_portal a.session (hex name)) (λ portal. and_then (read_i32 r) (λ (count, end).
        and_then (finish end) (λ done.
          if leb 2147483648 count
          then error malformed_execute
          else ok (record a {
            backend_operations = a.backend_operations ++ executed ∷ [];
            executions =
                a.executions
                ++ record {
                  sql = portal.statement.sql;
                  identity = portal.identity ++ 58 ∷ decimal count;
                  statement = portal.statement.identity;
                }
                  ∷ [];
            dependencies =
                (codes "parse:" ++ portal.statement.identity)
                ∷ (codes "bind:" ++ portal.identity)
                ∷ (codes "D:S:" ++ portal.statement.identity)
                ∷ (codes "D:P:" ++ portal.identity)
                ∷ a.dependencies;
          })))))

  -- The target of a Describe or a Close: `take(1).toString()`, a byte that is S or P.
  abbrev pub target_of : Bytes → Option Target
  target_of [] = none
  target_of (b ∷ bs) =
      if b == 83 then some statement_target else if b == 80 then some portal_target else none

  -- The statement that the target names, with the identity of the target.
  unfoldable pub find_target : Session → Target → Text → Result (Statement × Text)
  unfolding find_statement find_portal
  find_target s statement_target name =
      and_then (find_statement s name)
        (λ statement. ok (statement, codes ":S:" ++ statement.identity))
  find_target s portal_target name =
      and_then (find_portal s name)
        (λ portal. ok (portal.statement, codes ":P:" ++ portal.identity))

  abbrev close_target : Text → Target → Assembler → Assembler
  close_target name target a = record a { session = forget a.session target name }

  -- A Describe or a Close of the target.
  unfoldable pub name_target : Assembler → ℕ → Target → Text → Result Assembler
  unfolding find_target
  name_target a type target name =
      and_then (find_target a.session target name) (λ (statement, identity).
        let operation : Operation = record {
          sql = statement.sql;
          identity = type ∷ identity;
          statement = statement.identity;
        } in
        if type == 67
        then ok (close_target name target (add_operation operation (closed name target) a))
        else ok (add_operation operation described a))

  unfoldable pub accept_named : Assembler → ℕ → Bytes → Result Assembler
  accept_named a type rest = and_then (take_bytes 1 rest) (λ (byte, r).
      and_then (cstring r) (λ (name, end). and_then (finish end) (λ done. elim (target_of byte) [
        | none ↦ error malformed_target
        | some target ↦ name_target a type target (hex name)
      ])))

  -- The unit of a cycle that ends.
  unfoldable pub unit_of : Assembler → FrontendUnit
  unfolding others additional join
  unit_of a =
      let named = map (λ (o : Operation). o.statement) a.executions in
      record {
        protocol = extended;
        sql = join (map (λ (o : Operation). o.sql) (a.executions ++ additional named (others a)));
        fingerprint =
            h.hash_extended (map (λ (o : Operation). o.identity) (a.executions ++ others a));
        bytes = concat a.frames;
        stage = none;
        statement_name = none;
        reconciliation = record { operations = a.backend_operations; index = 0; failed = false };
      }

  unfoldable pub accept_query : Assembler → Bytes → Bytes → Result (Assembler × Option FrontendUnit)
  accept_query a frame rest =
      if not (a.bytes == 0)
      then error simple_in_cycle
      else and_then (cstring rest) (λ (sql, end). and_then (finish end) (λ done. ok (
        a,
        some (record {
          protocol = simple;
          sql = h.utf8 sql;
          fingerprint = h.hash (codes "simple" ++ 0 ∷ sql);
          bytes = frame;
          stage = none;
          statement_name = none;
          reconciliation = record { operations = []; index = 0; failed = false };
        }),
      )))

  -- A message of the extended protocol that is buffered already.
  unfoldable pub accept_extended : Assembler → ℕ → Bytes → Result (Assembler × Option FrontendUnit)
  accept_extended a type rest =
      if type == 80
      then and_then (accept_parse a rest) (λ b. ok (b, none))
      else if type == 66
      then and_then (accept_bind a rest) (λ b. ok (b, none))
      else if type == 69
      then and_then (accept_execute a rest) (λ b. ok (b, none))
      else if type == 68 || type == 67
      then and_then (accept_named a type rest) (λ b. ok (b, none))
      else and_then (finish rest) (λ done. ok (reset a, some (unit_of a)))

  abbrev pub buffered : Assembler → Bytes → Assembler
  buffered a frame = record a { frames = a.frames ++ frame ∷ []; bytes = a.bytes + length frame }

  unfoldable pub assemble : Assembler → Bytes → Result (Assembler × Option FrontendUnit)
  assemble a frame =
      if is_flush frame && not a.flushes
      then error early_flush
      else if is_copy frame
      then error copy_data
      else if is_query frame
      then accept_query a frame (drop 5 frame)
      else if not (is_extended frame)
      then error unsupported_message
      else if is_flush frame && is_empty a.frames
      then error flush_without_messages
      else if ltb a.session.max_buffered (a.bytes + length frame)
      then error cycle_limit
      else accept_extended (buffered a frame) (type_of frame) (drop 5 frame)
