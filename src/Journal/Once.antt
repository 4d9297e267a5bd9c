-- ===== src/Journal/Once.antt =====
-- Only one call closes a row of the journal (internal/journal), however record and close calls come.
use text.Mathlib.Text.{◌==◌ as str_eq}
use text.Mathlib.TextEquality.{eq_iff}
use joinanny.Base.{
  ℕ, suc, ◌≤◌, ◌≡◌, refl, sym, subst, inl, inr, String, Bool, true, false, ◌&&◌, List, [], ◌∷◌,
  arith, if◌then◌else◌, Bool-cases,
}
use joinanny.Base.Table.{Table}
use joinanny.Journal.{Trade, CloseUpdate, record_trade, close_service}
use joinanny.Journal.Rows.{
  closes, Settled, record_trade-Settled, close_service-Settled, close_service_refuses,
  close_service_settles,
}

pub data Call : Type 0 where
  record_call : Trade → Call
  close_call : String → CloseUpdate → ℕ → Call

unfoldable pub after : Call → Table Trade → Table Trade
after (record_call t) trades = (record_trade t trades).1
after (close_call id u now) trades = (close_service id u now trades).1

-- Whether a call closes the row of an id.
unfoldable pub closes_row : String → Call → Table Trade → Bool
closes_row id (record_call t) trades = false
closes_row id (close_call j u now) trades = str_eq j id && closes (close_service j u now trades).0

unfoldable pub times_closed : String → List Call → Table Trade → ℕ
times_closed id [] trades = 0
times_closed id (c ∷ cs) trades =
    let rest = times_closed id cs (after c trades) in
    if closes_row id c trades then suc rest else rest

closes_row-Settled :
    (id : String) (c : Call) (trades : Table Trade)
    → Settled id trades
    → closes_row id c trades ≡ false
unfolding closes_row
closes_row-Settled id (record_call t) trades s = refl
closes_row-Settled id (close_call j u now) trades s = elim (Bool-cases (str_eq j id)) [
  | inr other ↦ rw other
  | inl same ↦ rw same (
      close_service_refuses j u now trades
        (subst (λ k. Settled k trades) (sym ((eq_iff j id).0 same)) s))
]

closes_row_settles :
    (id : String) (c : Call) (trades : Table Trade)
    → closes_row id c trades ≡ true
    → Settled id (after c trades)
unfolding closes_row after
closes_row_settles id (record_call t) trades h = cc
closes_row_settles id (close_call j u now) trades h = elim (Bool-cases (str_eq j id)) [
  | inr other ↦ let refusal : false ≡ true = rw other at h in cc
  | inl same ↦
      subst (λ k. Settled k (close_service j u now trades).1) ((eq_iff j id).0 same)
        (close_service_settles j u now trades (rw same at h))
]

after-Settled :
    (id : String) (c : Call) (trades : Table Trade)
    → Settled id trades
    → Settled id (after c trades)
unfolding after
after-Settled id (record_call t) trades s = record_trade-Settled id t trades s
after-Settled id (close_call j u now) trades s = close_service-Settled id j u now trades s

Settled-never :
    (id : String) (cs : List Call) (trades : Table Trade)
    → Settled id trades
    → times_closed id cs trades ≡ 0
unfolding times_closed
Settled-never id [] trades s = refl
Settled-never id (c ∷ cs) trades s =
    rw (closes_row-Settled id c trades s)
      (Settled-never id cs (after c trades) (after-Settled id c trades s))

-- A row is closed by at most one call, in every history of record and close calls over any table:
-- recording the open row once more, or a final row in its place, does not let it be closed again.
pub times_closed-le :
    (id : String) (cs : List Call) (trades : Table Trade) → times_closed id cs trades ≤ 1
unfolding times_closed
times_closed-le id [] trades = omega arith
times_closed-le id (c ∷ cs) trades = elim (Bool-cases (closes_row id c trades)) [
  | inl out ↦
      rw out
        (omega (arith, Settled-never id cs (after c trades) (closes_row_settles id c trades out)))
  | inr kept ↦ rw kept (times_closed-le id cs (after c trades))
]
