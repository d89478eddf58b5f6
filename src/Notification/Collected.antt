-- ===== src/Notification/Collected.antt =====
-- What the pointers of `filterEvents` (service/notification.go) point to.
use hch.Base.{
  ◌≡◌, refl, ap, ◌∙◌, ℕ, zero, suc, ◌+◌, Bool-cases, inl, inr, none, some, List, [], ◌∷◌, ◌++◌,
  if◌then◌else◌, arith,
}
use hch.Dao.Rows.{select, count}
use hch.Notification.Events.{Event, Loop, is_collected, collect, copies, filter_events}

abbrev pub replicate : ℕ → Event → List Event
replicate zero e = []
replicate (suc n) e = e ∷ replicate n e

copies_lem : (n : ℕ) (e : Event) → copies n (some e) ≡ replicate n e
unfolding copies
copies_lem zero e = refl
copies_lem (suc n) e = ap (λ l. e ∷ l) (copies_lem n e)

collect_event : (es : List Event) (e : Event) (l : Loop) → (collect (es ++ e ∷ []) l).event ≡ some e
unfolding collect
collect_event [] e l = refl
collect_event (x ∷ es) e l =
    collect_event es e
      (record { event = some x; pointers = if is_collected x then suc l.pointers else l.pointers })

collect_pointers :
    (es : List Event) (l : Loop) → (collect es l).pointers ≡ l.pointers + count is_collected es
unfolding collect select
collect_pointers [] l = omega arith
collect_pointers (e ∷ es) l =
    let ih = collect_pointers es (record {
      event = some e;
      pointers = if is_collected e then suc l.pointers else l.pointers;
    }) in
    elim (Bool-cases (is_collected e)) [ inl hit ↦ ground arith | inr miss ↦ ground arith ]

-- `filterEvents` returns as many events as pass its tests, but each of them is the last event of
-- the notification, whether or not that one passes.
pub filter_events_lem :
    (es : List Event) (e : Event)
    → filter_events (es ++ e ∷ []) ≡ replicate (count is_collected (es ++ e ∷ [])) e
unfolding filter_events
filter_events_lem es e =
    let start : Loop = record { event = none; pointers = 0 } in
    ap (λ o. copies (collect (es ++ e ∷ []) start).pointers o) (collect_event es e start)
    ∙ (copies_lem (collect (es ++ e ∷ []) start).pointers e
        ∙ ap (λ n. replicate n e)
            (let q = collect_pointers (es ++ e ∷ []) start in omega (arith, q)))
