-- ===== src/Account/Calls.antt =====
-- The calls of an account, and histories of them: a call that raises leaves the account as it was.
use maais.Base.{List, [], ◌∷◌, String, Result, ok, err}
use maais.Decimal.{Decimal}
use maais.Domain.{Datetime}
use maais.Account.{AccountState, FillArguments, apply_fill, mark, apply_funding}

pub data Call : Type 0 where
  fills : FillArguments → Call
  marks : String → Decimal → Datetime → Call
  funds : String → Decimal → Datetime → Call

abbrev pub symbol_of : Call → String
symbol_of (fills f) = f.symbol
symbol_of (marks symbol price at) = symbol
symbol_of (funds symbol rate at) = symbol

unfoldable pub perform : AccountState → Call → Result AccountState
perform a (fills f) = apply_fill a f
perform a (marks symbol price at) = mark a symbol price at
perform a (funds symbol rate at) = apply_funding a symbol rate at

abbrev pub account_after : AccountState → Result AccountState → AccountState
account_after a (ok b) = b
account_after a (err e) = a

unfoldable pub perform_all : AccountState → List Call → AccountState
perform_all a [] = a
perform_all a (c ∷ cs) = perform_all (account_after a (perform a c)) cs
