-- ===== src/Execution/OrderMachine/Transition.antt =====
-- What `transition` leaves behind when it returns and when it raises.
use claude_code_and_vive_cod.Prelude.{
  ◌≡◌, ◌≢◌, refl, sym, ◌∙◌, Bool, true, false, inl, inr, Option, none, some, String, str_eq, eq_iff,
  arith, if◌then◌else◌, Bool-cases,
}
use claude_code_and_vive_cod.Dict.{insert, lookup-insert, lookup-erase}
use claude_code_and_vive_cod.Brokers.Models.{OrderStatus, submitted, Order}
use claude_code_and_vive_cod.Execution.OrderMachine.{
  Machine, Result, ok, err, valid_transition, get, write, commit_status, transition,
  transition_found, submit, submit_found, rekey,
}

module _ {F W : Type 0} where
  -- What a call that should give the order `id` the status `new` has done, by how it ended.
  abbrev pub Moves : String → OrderStatus → Machine F W → Result (Order F) × Machine F W → Type 0
  Moves id new m (ok o, m') =
      ((p : Order F) × (get m id ≡ some p)
        × (valid_transition p.status new ≡ true)
        × (o ≡ record p { status = new }))
      × ((j : String) → get m' j ≡ (if str_eq id j then some o else get m j))
  Moves id new m (err e, m') = (j : String) → get m' j ≡ get m j

module _ {F W : Type 0} where
  pub get-write :
      (m : Machine F W) (id j : String) (o : Order F) (w : W)
      → get (record (write m id o) { world = w }) j ≡ (if str_eq id j then some o else get m j)
  unfolding get
  get-write m id j o w = lookup-insert id j o m.orders

  -- Writing `p` back over any order leaves the store as it was.
  get-write_back :
      (m : Machine F W) (id j : String) (p o : Order F) (w : W)
      → get m id ≡ some p
      → get (record (write (write m id o) id p) { world = w }) j ≡ get m j
  unfolding get
  get-write_back m id j p o w h = ground (
    arith,
    lookup-insert id j p (insert id o m.orders),
    lookup-insert id j o m.orders,
    eq_iff id j,
  )

module _ {F W : Type 0} (on_change : Order F → W → Bool × W) where
  committed :
      (id : String) (p : Order F) (new : OrderStatus) (m : Machine F W)
      → get m id ≡ some p
      → valid_transition p.status new ≡ true
      → Moves id new m (commit_status on_change id p new m)
  unfolding commit_status
  committed id p new m h v =
      let p' = record p { status = new } in
      let w = (on_change p' m.world).1 in
      elim (Bool-cases (on_change p' m.world).0) [
        | inl kept ↦ rw kept ((p, h, v, refl), λ j. get-write m id j p' w)
        | inr raised ↦ rw raised (λ j. get-write_back m id j p p' w h)
      ]

  found-Moves :
      (id : String) (new : OrderStatus) (m : Machine F W) (o : Option (Order F))
      → get m id ≡ o
      → Moves id new m (transition_found on_change id new o m)
  unfolding transition_found
  found-Moves id new m none h = λ j. refl
  found-Moves id new m (some p) h = elim (Bool-cases (valid_transition p.status new)) [
    | inl v ↦ rw v (committed id p new m h v)
    | inr bad ↦ rw bad (λ j. refl)
  ]

  -- A transition is atomic: if it returns an order, that is the stored order with the new, valid
  -- status, and nothing else changed; if it raises, for any reason, every entry is as it was.
  pub transition-Moves :
      (id : String) (new : OrderStatus) (m : Machine F W)
      → Moves id new m (transition on_change id new m)
  unfolding transition
  transition-Moves id new m = found-Moves id new m (get m id) refl

  -- A valid transition of a stored order whose callback returns succeeds.
  pub transition_succeeds :
      (id : String) (new : OrderStatus) (m : Machine F W) (p : Order F)
      → get m id ≡ some p
      → valid_transition p.status new ≡ true
      → (on_change (record p { status = new }) m.world).0 ≡ true
      → (transition on_change id new m).0 ≡ ok (record p { status = new })
  unfolding transition transition_found commit_status
  transition_succeeds id new m p h v kept = rw (h, v, kept)

  moved-get :
      (id new_id : String) (p : Order F) (m : Machine F W)
      → new_id ≢ id
      → let m' = rekey id new_id p m in
        (get m' id ≡ none) × (get m' new_id ≡ some (record p { id = new_id }))
  unfolding rekey get
  moved-get id new_id p m ne =
      let o = record p { id = new_id } in
      (
        ground
            (arith, eq_iff id new_id, lookup-erase id id (insert new_id o m.orders), eq_iff id id),
        ground (
          arith,
          eq_iff id new_id,
          lookup-erase id new_id (insert new_id o m.orders),
          lookup-insert new_id new_id o m.orders,
          eq_iff new_id new_id,
        ),
      )

  stays-none :
      (id j : String) (new : OrderStatus) (m : Machine F W) (r : Result (Order F) × Machine F W)
      → Moves id new m r
      → j ≢ id
      → get r.1 j ≡ get m j
  stays-none id j new m (ok o, m') h ne = ground (arith, h.1 j, eq_iff id j)
  stays-none id j new m (err e, m') h ne = h j

  at_key :
      (id : String) (new : OrderStatus) (m : Machine F W) (p : Order F)
      (r : Result (Order F) × Machine F W)
      → Moves id new m r
      → get m id ≡ some p
      → (q : Order F) × (get r.1 id ≡ some q) × (q.id ≡ p.id)
  at_key id new m p (ok o, m') h e = (o, ground (arith, h.1 id, eq_iff id id), ground (arith, h.0))
  at_key id new m p (err e', m') h e = (p, rw (h id) e, refl)

  -- Submitting a known order under another, non-empty broker id moves it to that id, also when
  -- the transition that follows raises: the old id is unknown afterwards, and the broker's id
  -- holds an order that carries it.
  pub submit_rekeys :
      (id broker_id : String) (m : Machine F W) (p : Order F)
      → get m id ≡ some p
      → broker_id ≢ ""
      → broker_id ≢ id
      → let m' = (submit on_change id broker_id m).1 in
        (get m' id ≡ none) × ((q : Order F) × (get m' broker_id ≡ some q) × (q.id ≡ broker_id))
  unfolding submit submit_found
  submit_rekeys id broker_id m p h named ne =
      let moved = rekey id broker_id p m in
      let (gone, there) = moved-get id broker_id p m ne in
      let moves = transition-Moves broker_id submitted moved in
      let r = transition on_change broker_id submitted moved in
      let named' : str_eq broker_id "" ≡ false = ground (arith, eq_iff broker_id "") in
      rw (h, named')
        (
          stays-none broker_id id submitted moved r moves (λ e. ne (sym e)) ∙ gone,
          at_key broker_id submitted moved (record p { id = broker_id }) r moves there,
        )
