-- ===== src/Model/Logged.antt =====
-- A host that keeps a log of what is done with it, newest first.
use codex_daily_prewarm.Base.{
  Bool, List, String, [], false, leb_ℤ, not, pos, suc, true, ℕ, ◌&&◌, ◌∷◌,
}
use codex_daily_prewarm.Model.Answer.{HostReply, answered, callback_error, other_error, undecodable}
use codex_daily_prewarm.Model.Execute.{Host}

pub data HostOp : Type 0 where
  asked_leave : Bool → HostOp
  called_host : String → HostReply → HostOp
  waited_for : Bool → HostOp

abbrev pub Log : Type 0
Log = List HostOp

unfoldable pub logged : {W : Type 0} → Host W → Host (W × Log)
logged h = record {
  stop_requested = λ p. h.stop_requested p.0;
  reserve = λ p. let (b, w) = h.reserve p.0 in (b, (w, asked_leave b ∷ p.1));
  call_host = λ m p. let (r, w) = h.call_host m p.0 in (r, (w, called_host m r ∷ p.1));
  pause = λ d p. let (b, w) = h.pause d p.0 in (b, (w, waited_for b ∷ p.1));
  clock = λ p. h.clock p.0;
  lower_case = h.lower_case;
  show_number = h.show_number;
}

-- The outcome of the call is not known: no status came back, or the reply does not decode.
abbrev pub is_uncertain : HostReply → Bool
is_uncertain (callback_error status b) = leb_ℤ status (pos 0)
is_uncertain other_error = true
is_uncertain undecodable = true
is_uncertain (answered a) = false

-- A log that does not end in an uncertain call.
abbrev pub is_open : Log → Bool
is_open [] = true
is_open (called_host m r ∷ l) = not (is_uncertain r)
is_open (_ ∷ l) = true

-- A call stands directly behind a reservation that was granted.
abbrev pub may_follow : HostOp → Log → Bool
may_follow (called_host m r) (asked_leave true ∷ l) = true
may_follow (called_host m r) _ = false
may_follow _ l = true

-- Every call stands behind its own granted reservation, and nothing behind an uncertain call.
abbrev pub is_disciplined : Log → Bool
is_disciplined [] = true
is_disciplined (op ∷ l) = may_follow op l && is_open l && is_disciplined l

abbrev pub grants : Log → ℕ
grants [] = 0
grants (asked_leave true ∷ l) = suc (grants l)
grants (_ ∷ l) = grants l

abbrev pub calls : Log → ℕ
calls [] = 0
calls (called_host m r ∷ l) = suc (calls l)
calls (_ ∷ l) = calls l
