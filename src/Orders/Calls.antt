-- ===== src/Orders/Calls.antt =====
-- The calls that change a paper order, as data, and the arrows of its state machine.
use maais.Base.{Bool, true, false, String, Result, ok, err, List, [], ◌∷◌}
use maais.Decimal.{Decimal}
use maais.Domain.{
  PaperOrderStatus, created, authorized, accepted, partially_filled, filled, canceled, rejected,
  expired, Datetime,
}
use maais.Orders.{PaperOrder, authorize, accept, apply_fill, cancel, expire, reject}

pub data Call : Type 0 where
  authorizes accepts cancels expires : Datetime → Call
  fills : Decimal → Datetime → Call
  rejects : Datetime → String → Call

unfoldable pub perform : PaperOrder → Call → Result PaperOrder
perform o (authorizes at) = authorize o at
perform o (accepts at) = accept o at
perform o (cancels at) = cancel o at
perform o (expires at) = expire o at
perform o (fills quantity at) = apply_fill o quantity at
perform o (rejects at reason) = reject o at reason

-- The order after a call: a call that raises leaves it alone, since the objects are immutable.
abbrev pub after : PaperOrder → Result PaperOrder → PaperOrder
after o (ok o') = o'
after o (err e) = o

unfoldable pub perform_all : PaperOrder → List Call → PaperOrder
perform_all o [] = o
perform_all o (c ∷ cs) = perform_all (after o (perform o c)) cs

abbrev pub is_ending : PaperOrderStatus → Bool
is_ending canceled = true
is_ending rejected = true
is_ending expired = true
is_ending _ = false

-- The state machine's arrows, as a table over the statuses.
abbrev pub can_move : PaperOrderStatus → PaperOrderStatus → Bool
can_move created authorized = true
can_move authorized accepted = true
can_move accepted partially_filled = true
can_move accepted filled = true
can_move partially_filled partially_filled = true
can_move partially_filled filled = true
can_move created s = is_ending s
can_move authorized s = is_ending s
can_move accepted s = is_ending s
can_move partially_filled s = is_ending s
can_move _ _ = false
