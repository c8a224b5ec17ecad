-- ===== src/Protocol/Assembler/Metadata.antt =====
-- Messages of the client keep the count of the session's metadata exact.
use interleave.Prelude.{
  ℕ, ◌+◌, ◌*◌, ◌≡◌, refl, subst, ◌&&◌, ◌||◌, not, Option, none, some, Text, Bytes, length, drop,
  ltb, leb, ◌==◌,
}
use interleave.Protocol.Cycles.{type_of, is_flush, is_query, is_extended, is_copy, is_empty}
use interleave.Protocol.Session.{
  Session, SessionError, Statement, Portal, Target, remember_statement, remember_portal,
}
use interleave.Protocol.Session.Accounting.{
  IsMetered, remember_statement-IsMetered, remember_portal-IsMetered, forget-IsMetered,
}
use interleave.Protocol.Assembler.{
  name_target, reset, Host, FrontendUnit, Assembler, find_statement, find_portal, find_target,
  install_statement, install_portal, hex, accept_parse, accept_bind, accept_execute, accept_named,
  accept_query, accept_extended, assemble, buffered, target_of,
}
use interleave.Protocol.Results.{Holds, Holds-and_then, Holds-each, Holds-if}
use interleave.Protocol.Reader.{
  metadata_limit, malformed_target, error, ok, take_bytes, cstring, read_u16, read_i32, finish,
  skip_bind,
}

abbrev IsExact : Assembler → Type 0
IsExact a = IsMetered a.session

abbrev IsExactNow : Assembler × Option FrontendUnit → Type 0
IsExactNow (a, unit) = IsMetered a.session

install_statement-IsExact :
    (a : Assembler) (name : Text) (value : Statement)
    → IsExact a
    → Holds IsExact (install_statement a name value)
unfolding install_statement
install_statement-IsExact a name value h = go (remember_statement a.session name value).1 refl
  where
    t : Session
    t = (remember_statement a.session name value).0

    go :
        (refusal : Option SessionError)
        → remember_statement a.session name value ≡ (t, refusal)
        → Holds IsExact
            (elim refusal [ some e ↦ error metadata_limit | none ↦ ok (record a { session = t }) ])
    go (some e) x = tt
    go none x = remember_statement-IsMetered a.session t name value h x

install_portal-IsExact :
    (a : Assembler) (name : Text) (value : Portal)
    → IsExact a
    → Holds IsExact (install_portal a name value)
unfolding install_portal
install_portal-IsExact a name value h = go (remember_portal a.session name value).1 refl
  where
    t : Session
    t = (remember_portal a.session name value).0

    go :
        (refusal : Option SessionError)
        → remember_portal a.session name value ≡ (t, refusal)
        → Holds IsExact
            (elim refusal [ some e ↦ error metadata_limit | none ↦ ok (record a { session = t }) ])
    go (some e) x = tt
    go none x = remember_portal-IsMetered a.session t name value h x

module _ (h : Host) where
  accept_parse-IsExact :
      (a : Assembler) (rest : Bytes) → IsExact a → Holds IsExact (accept_parse h a rest)
  unfolding accept_parse
  accept_parse-IsExact a rest exact = Holds-each IsExact (cstring rest) _ (λ (name, r).
      Holds-each IsExact (cstring r) _ (λ (sql, r').
        Holds-each IsExact (read_u16 r') _ (λ (count, r'').
          Holds-each IsExact (take_bytes (count * 4) r'') _ (λ (types, end).
            Holds-each IsExact (finish end) _ (λ done.
              Holds-and_then IsExact IsExact (install_statement a (hex name) _) _
                (install_statement-IsExact a (hex name) _ exact) (λ b k. k))))))

  accept_bind-IsExact :
      (a : Assembler) (rest : Bytes) → IsExact a → Holds IsExact (accept_bind h a rest)
  unfolding accept_bind
  accept_bind-IsExact a rest exact = Holds-each IsExact (cstring rest) _ (λ (name, r).
      Holds-each IsExact (cstring r) _ (λ (source, r').
        Holds-each IsExact (find_statement a.session (hex source)) _ (λ statement.
          Holds-each IsExact (skip_bind r') _ (λ done.
            Holds-and_then IsExact IsExact (install_portal a (hex name) _) _
              (install_portal-IsExact a (hex name) _ exact) (λ b k. k)))))

  accept_execute-IsExact :
      (a : Assembler) (rest : Bytes) → IsExact a → Holds IsExact (accept_execute h a rest)
  unfolding accept_execute
  accept_execute-IsExact a rest exact = Holds-each IsExact (cstring rest) _ (λ (name, r).
      Holds-each IsExact (find_portal a.session (hex name)) _ (λ portal.
        Holds-each IsExact (read_i32 r) _ (λ (count, end).
          Holds-each IsExact (finish end) _
            (λ done. Holds-if IsExact (leb 2147483648 count) _ _ tt exact))))

  name_target-IsExact :
      (a : Assembler) (type : ℕ) (target : Target) (name : Text)
      → IsExact a
      → Holds IsExact (name_target h a type target name)
  unfolding name_target
  name_target-IsExact a type target name exact =
      Holds-each IsExact (find_target h a.session target name) _ (λ (statement, identity).
        Holds-if IsExact (type == 67) _ _ (forget-IsMetered a.session target name exact) exact)

  accept_named-IsExact :
      (a : Assembler) (type : ℕ) (rest : Bytes)
      → IsExact a
      → Holds IsExact (accept_named h a type rest)
  unfolding accept_named
  accept_named-IsExact a type rest exact = Holds-each IsExact (take_bytes 1 rest) _ (λ (byte, r).
      Holds-each IsExact (cstring r) _ (λ (name, end).
        Holds-each IsExact (finish end) _ (λ done. go (hex name) (target_of h byte))))
    where
      go :
          (name : Text) (target : Option Target)
          → Holds IsExact
              (elim target [ none ↦ error malformed_target | some t ↦ name_target h a type t name ])
      go name none = tt
      go name (some t) = name_target-IsExact a type t name exact

  accept_query-IsExact :
      (a : Assembler) (frame rest : Bytes)
      → IsExact a
      → Holds IsExactNow (accept_query h a frame rest)
  unfolding accept_query
  accept_query-IsExact a frame rest exact = Holds-if IsExactNow (not (a.bytes == 0)) _ _ tt (
      Holds-each IsExactNow (cstring rest) _
        (λ (sql, end). Holds-each IsExactNow (finish end) _ (λ done. exact)))

  accept_extended-IsExact :
      (a : Assembler) (type : ℕ) (rest : Bytes)
      → IsExact a
      → Holds IsExactNow (accept_extended h a type rest)
  unfolding accept_extended reset
  accept_extended-IsExact a type rest exact =
      Holds-if IsExactNow (type == 80) _ _
        (Holds-and_then IsExact IsExactNow (accept_parse h a rest) _
          (accept_parse-IsExact a rest exact) (λ b k. k))
        (Holds-if IsExactNow (type == 66) _ _
          (Holds-and_then IsExact IsExactNow (accept_bind h a rest) _
            (accept_bind-IsExact a rest exact) (λ b k. k))
          (Holds-if IsExactNow (type == 69) _ _
            (Holds-and_then IsExact IsExactNow (accept_execute h a rest) _
              (accept_execute-IsExact a rest exact) (λ b k. k))
            (Holds-if IsExactNow (type == 68 || type == 67) _ _
              (Holds-and_then IsExact IsExactNow (accept_named h a type rest) _
                (accept_named-IsExact a type rest exact) (λ b k. k))
              (Holds-each IsExactNow (finish rest) _ (λ done. exact)))))

  assemble-Holds :
      (a : Assembler) (frame : Bytes) → IsExact a → Holds IsExactNow (assemble h a frame)
  unfolding assemble
  assemble-Holds a frame exact = Holds-if IsExactNow (is_flush frame && not a.flushes) _ _ tt (
      Holds-if IsExactNow (is_copy frame) _ _ tt (
        Holds-if IsExactNow (is_query frame) _ _ (accept_query-IsExact a frame (drop 5 frame) exact)
          (Holds-if IsExactNow (not (is_extended frame)) _ _ tt (
            Holds-if IsExactNow (is_flush frame && is_empty a.frames) _ _ tt (
              Holds-if IsExactNow (ltb a.session.max_buffered (a.bytes + length frame)) _ _ tt (
                accept_extended-IsExact (buffered h a frame) (type_of frame) (drop 5 frame)
                  exact))))))

  -- A message of the client that is accepted leaves the session's metadata counted exactly, within
  -- the limit and with each name once, where it was so before.
  pub assemble-IsMetered :
      (a b : Assembler) (unit : Option FrontendUnit) (frame : Bytes)
      → IsMetered a.session
      → assemble h a frame ≡ ok (b, unit)
      → IsMetered b.session
  assemble-IsMetered a b unit frame exact e =
      subst (Holds IsExactNow) e (assemble-Holds a frame exact)
