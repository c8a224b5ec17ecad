-- ===== src/Protocol/Releases/Continuations.antt =====
-- What a continuation of a describe stage runs.
use interleave.Prelude.{
  ◌≡◌, refl, ap, subst, ◌∙◌, false, not, Option, none, some, List, [], ◌∷◌, ◌++◌, Text, Bytes,
  codes, text_eq, lookup, drop, leb, ◌==◌, arith,
}
use interleave.Protocol.Cycles.{type_of}
use interleave.Protocol.Session.{
  Session, SessionError, Statement, Portal, BackendOperation, bound, executed, remember_portal,
}
use interleave.Protocol.Reader.{
  AssemblerError, metadata_limit, incomplete_continuation, invalid_continuation,
  expected_continuation, error, ok, cstring, read_i32, finish, skip_bind,
}
use interleave.Protocol.Results.{
  Holds, Holds-and_then, Holds-each, Holds-if, Holds-throw_if, Holds-of, and_then-ok, throw_if-ok,
}
use interleave.Protocol.Assembler.{
  Host, FrontendUnit, Assembler, find_statement, find_portal, install_portal, hex, accept_bind,
  accept_execute, accept_extended, assemble, buffered, reset, unit_of,
}
use interleave.Protocol.Releases.{
  has_types, check_continuation, prefix_name, accept_each, accept_unit, continue_bound,
  continuation,
}
use interleave.Protocol.Releases.Naming.{Names, Reads, check_continuation-Reads}
use interleave.Protocol.Releases.Messages.{assemble-Holds}
use interleave.Protocol.Releases.Proposals.{IsIdle}

-- A Bind of a statement that the session has, one Execute of the portal that it made, and a Sync.
pub record RunsStatement (s : Session) (name : Text) (frames : List Bytes)
    (operations : List BackendOperation) : Type 0 where
  pub bind_frame : Bytes
  pub run_frame : Bytes
  pub end_frame : Bytes
  pub three : frames ≡ bind_frame ∷ run_frame ∷ end_frame ∷ []
  pub types : (type_of bind_frame ≡ 66) × (type_of run_frame ≡ 69) × (type_of end_frame ≡ 83)
  pub statement : Statement
  pub portal : Text
  pub names : Names portal name bind_frame run_frame
  pub identity : Text
  pub installed : lookup name s.statements ≡ some statement
  pub two :
      operations
      ≡ bound portal (record { statement = statement; identity = identity }) ∷ executed ∷ []

record Binds (s : Session) (before : List BackendOperation) (name portal : Text) (b : Assembler)
    : Type 0 where
  statement : Statement
  identity : Text
  installed : lookup name s.statements ≡ some statement
  once :
      b.backend_operations
      ≡ before ++ bound portal (record { statement = statement; identity = identity }) ∷ []

find_statement-lookup :
    (s : Session) (name : Text) (v : Statement)
    → find_statement s name ≡ ok v
    → lookup name s.statements ≡ some v
unfolding find_statement
find_statement-lookup s name v e = ground arith

install_portal-operations :
    (a : Assembler) (name : Text) (value : Portal)
    → Holds (λ b. b.backend_operations ≡ a.backend_operations) (install_portal a name value)
unfolding install_portal
install_portal-operations a name value = go (remember_portal a.session name value).1
  where
    go :
        (refusal : Option SessionError)
        → Holds
            (λ (b : Assembler). b.backend_operations ≡ a.backend_operations)
            (elim refusal [
              | some e ↦ error metadata_limit
              | none ↦ ok (record a { session = (remember_portal a.session name value).0 })
            ])
    go (some e) = tt
    go none = refl

three-types :
    (bind run end : Bytes)
    → not (has_types (codes "BES") (bind ∷ run ∷ end ∷ [])) ≡ false
    → (type_of bind ≡ 66) × (type_of run ≡ 69) × (type_of end ≡ 83)
unfolding text_eq
three-types bind run end h = ground arith

prefix_name-some :
    (prefix : FrontendUnit) (name found : Text)
    → prefix.statement_name ≡ some name
    → prefix_name prefix ≡ ok found
    → found ≡ name
prefix_name-some prefix name found named e = ground arith

module _ (h : Host) where
  accept_bind-Binds :
      (a : Assembler) (rest portal after source more : Bytes)
      → cstring rest ≡ ok (portal, after)
      → cstring after ≡ ok (source, more)
      → Holds
          (Binds a.session a.backend_operations (hex source) (hex portal))
          (accept_bind h a rest)
  unfolding accept_bind
  accept_bind-Binds a rest portal after source more first second = rw first (
      rw second (
        Holds-of _ (find_statement a.session (hex source)) _ (λ statement found.
          Holds-each _ (skip_bind more) _ (λ done.
            let value : Portal = record {
              statement = statement;
              identity = h.hash_text (statement.identity ++ 58 ∷ h.hash more);
            } in
            Holds-and_then _ (Binds a.session a.backend_operations (hex source) (hex portal))
              (install_portal a (hex portal) value) _
              (install_portal-operations a (hex portal) value)
              (λ b same. record {
                statement = statement;
                identity = value.identity;
                installed = find_statement-lookup a.session (hex source) statement found;
                once = ap (λ l. l ++ bound (hex portal) value ∷ []) same;
              })))))

  accept_execute-operations :
      (a : Assembler) (rest : Bytes)
      → Holds
          (λ b. b.backend_operations ≡ a.backend_operations ++ executed ∷ [])
          (accept_execute h a rest)
  unfolding accept_execute
  accept_execute-operations a rest = Holds-each _ (cstring rest) _ (λ (name, r).
      Holds-each _ (find_portal a.session (hex name)) _ (λ portal.
        Holds-each _ (read_i32 r) _ (λ (count, end). Holds-each _ (finish end) _ (λ done.
          Holds-if (λ (b : Assembler). b.backend_operations ≡ a.backend_operations ++ executed ∷ [])
            (leb 2147483648 count) _ _ tt refl))))

  -- The three messages, by their types.
  assemble-bind :
      (P : Assembler → Type 0) (a : Assembler) (frame : Bytes)
      → type_of frame ≡ 66
      → Holds P (accept_bind h (buffered h a frame) (drop 5 frame))
      → Holds (λ (r : Assembler × Option FrontendUnit). P r.0) (assemble h a frame)
  unfolding accept_extended
  assemble-bind P a frame kind k = assemble-Holds h _ a frame (ground arith) (
      rw kind
        (Holds-and_then P _ (accept_bind h (buffered h a frame) (drop 5 frame)) _ k (λ b x. x)))

  assemble-execute :
      (P : Assembler → Type 0) (a : Assembler) (frame : Bytes)
      → type_of frame ≡ 69
      → Holds P (accept_execute h (buffered h a frame) (drop 5 frame))
      → Holds (λ (r : Assembler × Option FrontendUnit). P r.0) (assemble h a frame)
  unfolding accept_extended
  assemble-execute P a frame kind k = assemble-Holds h _ a frame (ground arith) (
      rw kind
        (Holds-and_then P _ (accept_execute h (buffered h a frame) (drop 5 frame)) _ k (λ b x. x)))

  -- The unit of a Sync has the operations that were gathered.
  abbrev Carries : List BackendOperation → Assembler × Option FrontendUnit → Type 0
  Carries operations (b, none) = ⊥
  Carries operations (b, some unit) = unit.reconciliation.operations ≡ operations

  assemble-sync :
      (a : Assembler) (frame : Bytes)
      → type_of frame ≡ 83
      → Holds (Carries a.backend_operations) (assemble h a frame)
  unfolding accept_extended unit_of reset
  assemble-sync a frame kind =
      assemble-Holds h _ a frame (ground arith) (
        rw kind
          (Holds-each (Carries a.backend_operations) (finish (drop 5 frame)) _ (λ done. refl)))

  RunsStatement-three :
      (a b c : Assembler) (bind run end : Bytes) (name portal : Text)
      (operations : List BackendOperation)
      → a.backend_operations ≡ []
      → (type_of bind ≡ 66) × (type_of run ≡ 69) × (type_of end ≡ 83)
      → Names portal name bind run
      → Binds a.session a.backend_operations name portal b
      → c.backend_operations ≡ b.backend_operations ++ executed ∷ []
      → operations ≡ c.backend_operations
      → RunsStatement a.session name (bind ∷ run ∷ end ∷ []) operations
  RunsStatement-three a b c bind run end name portal operations none_yet types names binds runs
        same =
      record {
        bind_frame = bind;
        run_frame = run;
        end_frame = end;
        three = refl;
        types = types;
        statement = binds.statement;
        portal = portal;
        names = names;
        identity = binds.identity;
        installed = binds.installed;
        two =
            same
            ∙ (runs
                ∙ ap (λ l. l ++ executed ∷ [])
                    (binds.once
                      ∙ ap
                          (λ l.
                            l
                            ++ bound portal
                                (record { statement = binds.statement; identity = binds.identity })
                              ∷ [])
                          none_yet));
      }

  accept_unit-Runs :
      (a : Assembler) (bind run end : Bytes) (name : Text) (refusal : AssemblerError)
      → IsIdle a
      → (type_of bind ≡ 66) × (type_of run ≡ 69) × (type_of end ≡ 83)
      → Reads bind run name
      → Holds
          (λ (made : Assembler × FrontendUnit).
            RunsStatement a.session name (bind ∷ run ∷ end ∷ []) made.1.reconciliation.operations)
          (accept_unit h refusal a (bind ∷ run ∷ end ∷ []))
  unfolding accept_unit accept_each
  accept_unit-Runs a bind run end name refusal idle (first, second, third) (portal, names) =
      Holds-and_then Ends _ (accept_each h a none (bind ∷ run ∷ end ∷ [])) _
        (Holds-and_then
          (λ (r : Assembler × Option FrontendUnit).
            Binds a.session a.backend_operations name portal r.0)
          Ends (assemble h a bind) _
          (assemble-bind (Binds a.session a.backend_operations name portal) a bind first (
            subst
              (λ n.
                Holds (Binds a.session a.backend_operations n portal)
                  (accept_bind h (buffered h a bind) (drop 5 bind)))
              names.same_statement
              (subst
                (λ t.
                  Holds (Binds a.session a.backend_operations (hex names.source) t)
                    (accept_bind h (buffered h a bind) (drop 5 bind)))
                names.same_bound
                (accept_bind-Binds (buffered h a bind) (drop 5 bind) names.bound_portal
                  names.after_portal names.source names.after_source names.binds
                  names.of_statement))))
          (λ b binds.
            Holds-and_then
              (λ (r : Assembler × Option FrontendUnit).
                r.0.backend_operations ≡ b.0.backend_operations ++ executed ∷ [])
              Ends (assemble h b.0 run) _
              (assemble-execute
                (λ c. c.backend_operations ≡ b.0.backend_operations ++ executed ∷ []) b.0 run second
                (accept_execute-operations (buffered h b.0 run) (drop 5 run)))
              (λ c runs.
                Holds-and_then (Carries c.0.backend_operations) Ends (assemble h c.0 end) _
                  (assemble-sync c.0 end third) (λ d k. finished b.0 c.0 binds runs d k))))
        go
    where
      Ends : Assembler × Option FrontendUnit → Type 0
      Ends (d, none) = ⊥
      Ends (d, some unit) =
          RunsStatement a.session name (bind ∷ run ∷ end ∷ []) unit.reconciliation.operations

      finished :
          (b c : Assembler)
          → Binds a.session a.backend_operations name portal b
          → c.backend_operations ≡ b.backend_operations ++ executed ∷ []
          → (d : Assembler × Option FrontendUnit) → Carries c.backend_operations d
          → Ends (d.0, d.1)
      finished b c binds runs (d, none) k = absurd k
      finished b c binds runs (d, some unit) k =
          RunsStatement-three a b c bind run end name portal unit.reconciliation.operations
            idle.nothing_queued (first, second, third) names binds runs k

      go :
          (r : Assembler × Option FrontendUnit)
          → Ends r
          → Holds
              (λ (made : Assembler × FrontendUnit).
                RunsStatement a.session name
                  (bind ∷ run ∷ end ∷ [])
                  made.1.reconciliation.operations)
              (elim r.1 [ none ↦ error refusal | some unit ↦ ok (r.0, unit) ])
      go (d, none) k = absurd k
      go (d, some unit) k = k

  continue_bound-Runs :
      (a : Assembler) (prefix : FrontendUnit) (name : Text) (frames : List Bytes)
      → IsIdle a
      → Holds
          (λ (made : Assembler × FrontendUnit).
            RunsStatement a.session name frames made.1.reconciliation.operations)
          (continue_bound h a prefix name frames)
  unfolding continue_bound
  continue_bound-Runs a prefix name [] idle = tt
  continue_bound-Runs a prefix name (x ∷ []) idle = tt
  continue_bound-Runs a prefix name (x ∷ y ∷ []) idle = tt
  continue_bound-Runs a prefix name (x ∷ y ∷ z ∷ w ∷ frames) idle = tt
  continue_bound-Runs a prefix name (bind ∷ run ∷ end ∷ []) idle =
      Holds-throw_if _ (not (has_types (codes "BES") (bind ∷ run ∷ end ∷ []))) expected_continuation
        _
        (λ shaped. Holds-of _ (check_continuation bind run name) _ (λ done checked.
          Holds-and_then
            (λ (made : Assembler × FrontendUnit).
              RunsStatement a.session name (bind ∷ run ∷ end ∷ []) made.1.reconciliation.operations)
            _ (accept_unit h incomplete_continuation a (bind ∷ run ∷ end ∷ [])) _
            (accept_unit-Runs a bind run end name incomplete_continuation idle
              (three-types bind run end shaped) (check_continuation-Reads bind run name checked))
            (λ made k. k)))

  -- Where the session is idle and a describe stage completed without an error, a continuation that is
  -- accepted is a Bind, an Execute and a Sync. The Bind names a portal and the statement that the
  -- stage described, which the session has by then; the Execute names the same portal, without a row
  -- limit; and the backend is to bind that portal to the session's statement and execute once.
  pub continuation-RunsStatement :
      (a b : Assembler) (prefix unit : FrontendUnit) (name : Text) (frames : List Bytes)
      → IsIdle a
      → prefix.statement_name ≡ some name
      → continuation h a prefix false frames ≡ ok (b, unit)
      → RunsStatement a.session name frames unit.reconciliation.operations
  unfolding continuation
  continuation-RunsStatement a b prefix unit name frames idle named e =
      let (empty, k) = throw_if-ok (not (a.bytes == 0)) invalid_continuation _ e in
      let (found, same, k') = and_then-ok (prefix_name prefix) _ k in
      let is_named = prefix_name-some prefix name found named same in
      subst (λ n. RunsStatement a.session n frames unit.reconciliation.operations) is_named
        (subst
          (Holds (λ (made : Assembler × FrontendUnit).
            RunsStatement a.session found frames made.1.reconciliation.operations))
          k' (continue_bound-Runs a prefix found frames idle))
