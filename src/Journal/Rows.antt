-- ===== src/Journal/Rows.antt =====
-- What the calls of internal/journal keep of a row that is not open any more.
use text.Mathlib.Text.{◌==◌ as str_eq}
use text.Mathlib.TextEquality.{eq_iff}
use joinanny.Base.{
  ℕ, ◌≡◌, refl, sym, ap, ◌∙◌, subst, inl, inr, String, Bool, true, false, Option, none, some, arith,
  ◌==◌, Bool-cases, Option-cases,
}
use joinanny.Base.Text.{trim_space}
use joinanny.Base.Table.{Table, lookup, insert, lookup-insert_self, lookup-insert_ne}
use joinanny.Journal.{
  Outcome, Trade, CloseUpdate, Closing, answered, is_opened, valid, closed, save, close_row,
  close_found, close_trade, default_outcome, record_trade, dated, close_service,
}

abbrev pub closes : Closing → Bool
closes (answered (some t)) = true
closes _ = false

-- The row is there and is not open.
abbrev pub Settled : String → Table Trade → Type 0
Settled id trades = (t : Trade) × (lookup id trades ≡ some t) × (is_opened t.outcome ≡ false)

insert-Settled :
    (id j : String) (t : Trade) (trades : Table Trade)
    → is_opened t.outcome ≡ false
    → Settled id trades
    → Settled id (insert j t trades)
insert-Settled id j t trades h (r, e, p) = elim (Bool-cases (str_eq j id)) [
  | inl same ↦ (
    t,
    subst (λ k. lookup id (insert k t trades) ≡ some t) (sym ((eq_iff j id).0 same))
        (lookup-insert_self id t trades),
    h,
  )
  | inr differ ↦ (r, lookup-insert_ne j id t trades differ ∙ e, p)
]

-- A new row changes no row that is there.
insert_new-Settled :
    (id j : String) (t : Trade) (trades : Table Trade)
    → lookup j trades ≡ none
    → Settled id trades
    → Settled id (insert j t trades)
insert_new-Settled id j t trades h (r, e, p) = elim (Bool-cases (str_eq j id)) [
  | inl same ↦
      let missing : lookup id trades ≡ none =
        ap (λ k. lookup k trades) (sym ((eq_iff j id).0 same)) ∙ h in
      cc
  | inr differ ↦ (r, lookup-insert_ne j id t trades differ ∙ e, p)
]

save-Settled :
    (id : String) (t : Trade) (trades : Table Trade)
    → Settled id trades
    → Settled id (save t trades)
unfolding save
save-Settled id t trades s = elim (Bool-cases (is_opened t.outcome)) [
  | inr final ↦ rw final (insert-Settled id t.id t trades final s)
  | inl open_row ↦ elim (Option-cases (lookup t.id trades)) [
    | inl fresh ↦ rw (open_row, save, fresh) (insert_new-Settled id t.id t trades fresh s)
    | inr (old, e) ↦ rw (open_row, save, e) s
  ]
]

pub record_trade-Settled :
    (id : String) (t : Trade) (trades : Table Trade)
    → Settled id trades
    → Settled id (record_trade t trades).1
unfolding record_trade
record_trade-Settled id t trades s =
    let o = default_outcome Outcome.opened t.outcome in
    let saved = save-Settled id (record t { outcome = o }) trades s in
    elim (Bool-cases (str_eq (trim_space t.id) "")) [
      | inl blank ↦ rw blank s
      | inr named ↦ elim (Bool-cases (t.user_id == 0)) [
        | inl nobody ↦ rw (named, nobody) s
        | inr user ↦ elim (Bool-cases (str_eq (trim_space t.symbol) "")) [
          | inl blank ↦ rw (named, user, blank) s
          | inr symbol ↦ elim (Bool-cases (valid o)) [
            | inl good ↦ rw (named, user, symbol, good) saved
            | inr bad ↦ rw (named, user, symbol, bad) s
          ]
        ]
      ]
    ]

closed→final : (o : Outcome) → closed o ≡ true → is_opened o ≡ false
unfolding closed
closed→final o h = ground arith

close_found-Settled :
    (id j : String) (u : CloseUpdate) (o : Option Trade) (trades : Table Trade)
    → is_opened u.outcome ≡ false
    → Settled id trades
    → Settled id (close_found j u o trades).1
unfolding close_found close_row
close_found-Settled id j u none trades h s = s
close_found-Settled id j u (some t) trades h s = elim (Bool-cases (is_opened t.outcome)) [
  | inl open_row ↦ rw open_row (insert-Settled id j (close_row t u) trades h s)
  | inr final ↦ rw final s
]

-- A row that is not open is not closed again.
close_found_refuses :
    (id : String) (u : CloseUpdate) (trades : Table Trade)
    → Settled id trades
    → (close_found id u (lookup id trades) trades).0 ≡ none
unfolding close_found
close_found_refuses id u trades (t, e, p) = rw (e, close_found, p)

close_found_settles :
    (id : String) (u : CloseUpdate) (o : Option Trade) (t' : Trade) (trades : Table Trade)
    → is_opened u.outcome ≡ false
    → (close_found id u o trades).0 ≡ some t'
    → Settled id (close_found id u o trades).1
unfolding close_found close_row
close_found_settles id u none t' trades h e = cc
close_found_settles id u (some t) t' trades h e = elim (Bool-cases (is_opened t.outcome)) [
  | inl open_row ↦ rw open_row (close_row t u, lookup-insert_self id (close_row t u) trades, h)
  | inr final ↦ let no_row : ◌≡◌ {A = Option Trade} none (some t') = rw final at e in cc
]

closes_answered : (o : Option Trade) → closes (answered o) ≡ true → (t : Trade) × (o ≡ some t)
closes_answered none h = cc
closes_answered (some t) h = (t, refl)

module _ (id j : String) (u : CloseUpdate) (now : ℕ) (trades : Table Trade) where
  pub close_service-Settled : Settled id trades → Settled id (close_service j u now trades).1
  unfolding close_service close_trade
  close_service-Settled s =
      let o = default_outcome Outcome.breakeven u.outcome in
      elim (Bool-cases (str_eq (trim_space j) "")) [
        | inl blank ↦ rw blank s
        | inr named ↦ elim (Bool-cases (closed o)) [
          | inr not_final ↦ rw (named, not_final) s
          | inl final ↦
              rw (named, final)
                (close_found-Settled id j (dated u now) (lookup j trades) trades
                  (closed→final o final) s)
        ]
      ]

module _ (id : String) (u : CloseUpdate) (now : ℕ) (trades : Table Trade) where
  pub close_service_refuses : Settled id trades → closes (close_service id u now trades).0 ≡ false
  unfolding close_service close_trade
  close_service_refuses s =
      let o = default_outcome Outcome.breakeven u.outcome in
      elim (Bool-cases (str_eq (trim_space id) "")) [
        | inl blank ↦ rw blank
        | inr named ↦ elim (Bool-cases (closed o)) [
          | inr not_final ↦ rw (named, not_final)
          | inl final ↦ rw (named, final, close_found_refuses id (dated u now) trades s)
        ]
      ]

  pub close_service_settles :
      closes (close_service id u now trades).0 ≡ true → Settled id (close_service id u now trades).1
  unfolding close_service close_trade
  close_service_settles h =
      let o = default_outcome Outcome.breakeven u.outcome in
      elim (Bool-cases (str_eq (trim_space id) "")) [
        | inl blank ↦ let refusal : false ≡ true = rw blank at h in cc
        | inr named ↦ elim (Bool-cases (closed o)) [
          | inr not_final ↦ let refusal : false ≡ true = rw (named, not_final) at h in cc
          | inl final ↦
              let answer : closes
                    (answered (close_found id (dated u now) (lookup id trades) trades).0)
                  ≡ true =
                rw (named, final) at h in
              let (t, e) = closes_answered _ answer in
              rw (named, final)
                (close_found_settles id (dated u now) (lookup id trades) t trades
                  (closed→final o final) e)
        ]
      ]
