-- ===== src/Protocol/Announcements.antt =====
-- proxy.ts, `announce`: the release that a connection proposes next.
use interleave.Prelude.{
  ◌&&◌, not, Bool, true, false, Option, none, some, List, Bytes, if◌then◌else◌,
}
use interleave.Types.{ErrorInfo, ProtocolProfile, sync_cycle, describe_flush, flush_stages, is_some}
use interleave.Protocol.Reader.{incomplete_unit, Result, ok, ◌>>=◌}
use interleave.Protocol.Assembler.{Host, FrontendUnit, Assembler}
use interleave.Protocol.Releases.{
  fork, ends_in_flush, is_describe_prefix, accept_unit, describe_unit, continuation, flush_stage,
  flush_continuation,
}

abbrev pub is_staged : ProtocolProfile → Bool
is_staged sync_cycle = false
is_staged describe_flush = true
is_staged flush_stages = true

abbrev pub has_flush_stages : ProtocolProfile → Bool
has_flush_stages sync_cycle = false
has_flush_stages describe_flush = false
has_flush_stages flush_stages = true

-- The stage that a cycle was left open with: its unit, whether it completed, and its error.
pub record Prefix : Type 0 where
  pub original : FrontendUnit
  pub complete : Bool
  pub error : Option ErrorInfo

module _ (h : Host) (profile : ProtocolProfile) where
  -- A later release of a cycle that is open.
  unfoldable pub propose_next : Assembler → Prefix → List Bytes → Result (Assembler × FrontendUnit)
  unfolding continuation flush_continuation
  propose_next a prefix frames =
      if has_flush_stages profile
      then flush_continuation h a prefix.original (is_some prefix.error) frames
      else continuation h a prefix.original (is_some prefix.error) frames

  -- The first release of a cycle.
  unfoldable pub propose_first : Assembler → List Bytes → Result (Assembler × FrontendUnit)
  unfolding describe_unit flush_stage accept_unit is_describe_prefix
  propose_first a frames =
      if is_staged profile && ends_in_flush frames
      then (if has_flush_stages profile && not (is_describe_prefix frames)
          then flush_stage h a frames
          else describe_unit h a frames)
      else accept_unit h incomplete_unit a frames

  -- The release that the queue's first cycle is proposed as, or none while a stage is under way. It is
  -- made on a fork: what the server has not acknowledged stays out of the session.
  unfoldable pub propose :
      Assembler → Option Prefix → List Bytes → Result (Option (Assembler × FrontendUnit))
  unfolding propose_next propose_first fork
  propose a none frames = propose_first (fork a) frames >>= λ made. ok (some made)
  propose a (some prefix) frames =
      if not prefix.complete
      then ok none
      else (propose_next (fork a) prefix frames >>= λ made. ok (some made))
