-- ===== src/Protocol/Releases/Naming.antt =====
-- What the Bind and the Execute of a continuation name, and that check_continuation has read it.
use interleave.Prelude.{
  ℕ, ◌≡◌, refl, ap, ◌∙◌, false, not, [], ◌∷◌, Text, Bytes, text_eq, drop, ◌==◌, arith,
  eq_of_text_eq,
}
use interleave.Protocol.Reader.{
  foreign_bind, foreign_execute, limited_execute, ok, cstring, read_i32, finish,
}
use interleave.Protocol.Results.{and_then-ok, throw_if-ok}
use interleave.Protocol.Assembler.{hex}
use interleave.Protocol.Releases.{check_continuation}

-- What the Bind and the Execute of a continuation name: the Bind a portal and a statement, the
-- Execute a portal and its row limit, where 0 is none, with nothing after it.
pub record Names (portal name : Text) (bind run : Bytes) : Type 0 where
  pub bound_portal : Bytes
  pub after_portal : Bytes
  pub source : Bytes
  pub after_source : Bytes
  pub binds : cstring (drop 5 bind) ≡ ok (bound_portal, after_portal)
  pub of_statement : cstring after_portal ≡ ok (source, after_source)
  pub same_bound : hex bound_portal ≡ portal
  pub same_statement : hex source ≡ name
  pub run_portal : Bytes
  pub after_run : Bytes
  pub runs : cstring (drop 5 run) ≡ ok (run_portal, after_run)
  pub same_run : hex run_portal ≡ portal
  pub unlimited : read_i32 after_run ≡ ok (0, [])

row_limit :
    (read : ℕ × Bytes) (end : Unit {0})
    → not (read.0 == 0) ≡ false
    → finish read.1 ≡ ok end
    → read ≡ (0, [])
unfolding finish
row_limit (count, []) end h e = let none_ : count ≡ 0 = ground arith in ap (λ n. (n, [])) none_
row_limit (count, b ∷ rest) end h e = cc

-- What check_continuation has read.
abbrev pub Reads : Bytes → Bytes → Text → Type 0
Reads bind run name = (portal : Text) × Names portal name bind run

pub check_continuation-Reads :
    (bind run : Bytes) (name : Text)
    → check_continuation bind run name ≡ ok tt
    → Reads bind run name
unfolding check_continuation
check_continuation-Reads bind run name e =
    let (portal, first, k) = and_then-ok (cstring (drop 5 bind)) _ e in
    let (source, second, k1) = and_then-ok (cstring portal.1) _ k in
    let (same, k2) = throw_if-ok (not (text_eq (hex source.0) name)) foreign_bind _ k1 in
    let (target, third, k3) = and_then-ok (cstring (drop 5 run)) _ k2 in
    let (again, k4) =
      throw_if-ok (not (text_eq (hex target.0) (hex portal.0))) foreign_execute _ k3 in
    let (count, fourth, k5) = and_then-ok (read_i32 target.1) _ k4 in
    let (whole, k6) = throw_if-ok (not (count.0 == 0)) limited_execute _ k5 in
    (
      hex portal.0,
      record {
        bound_portal = portal.0;
        after_portal = portal.1;
        source = source.0;
        after_source = source.1;
        binds = first;
        of_statement = second;
        same_bound = refl;
        same_statement = eq_of_text_eq (hex source.0) name (ground arith);
        run_portal = target.0;
        after_run = target.1;
        runs = third;
        same_run = eq_of_text_eq (hex target.0) (hex portal.0) (ground arith);
        unlimited = fourth ∙ ap ok (row_limit count tt whole k6);
      },
    )
