-- ===== src/Beat/Errors/Exact.antt =====
-- beat.py: the walk along the causes of an exception ends, also on a cycle, and its answer.
use celery_diagnostics_obser.Prelude.{
  ℕ, zero, suc, ◌+◌, ◌≤◌, ◌<◌, ◌==◌, Bool, true, false, not, Option, none, some, List, [], ◌∷◌, ◌≡◌,
  refl, subst, arith, inl, inr, ◌⊎◌, Bool-cases, one_if, sym,
}
use celery_diagnostics_obser.Runtime.{Runtime}
use celery_diagnostics_obser.Beat.Errors.{
  ExceptionObject, next_error, is_visited, is_broker_class, broker_loop, is_broker_error,
}

-- The ids below `n` that are not visited.
unseen : ℕ → List ℕ → ℕ
unseen zero visited = 0
unseen (suc n) visited = unseen n visited + one_if (not (is_visited n visited))

unseen_below : (n id : ℕ) (visited : List ℕ) → n ≤ id → unseen n (id ∷ visited) ≡ unseen n visited
unfolding unseen is_visited
unseen_below zero id visited h = refl
unseen_below (suc n) id visited h =
    let rest : unseen n (id ∷ visited) ≡ unseen n visited =
      unseen_below n id visited (omega arith) in
    ground (arith, rest)

-- A visit of an id below `n` leaves one less unseen.
unseen_visit :
    (n id : ℕ) (visited : List ℕ)
    → id < n
    → is_visited id visited ≡ false
    → unseen n visited ≡ unseen n (id ∷ visited) + 1
unfolding unseen is_visited
unseen_visit zero id visited h new = absurd (omega arith)
unseen_visit (suc n) id visited h new = elim (Bool-cases (id == n)) [
  | inl same ↦
      let e : id ≡ n = ground arith in
      let gone = subst (λ k. is_visited k visited ≡ false) e new in
      let below = unseen_below n id visited (omega arith) in ground (arith, gone, below)
  | inr other ↦
      let e : id < n = ground arith in
      let rest = unseen_visit n id visited e new in ground (arith, rest, other)
]

unseen_none : (n : ℕ) → unseen n [] ≡ n
unfolding unseen is_visited
unseen_none zero = refl
unseen_none (suc n) = omega (arith, unseen_none n)

module _ (heap : ℕ → ExceptionObject) where
  -- Every exception that one below `n` leads to is below `n`.
  abbrev pub IsClosed : ℕ → Type 0
  IsClosed n = (id next : ℕ) → id < n → next_error (heap id) ≡ some next → next < n

  -- The exceptions that `start` leads to.
  pub data Chain (start : ℕ) : ℕ → Type 0 where
    here : Chain start start
    next :
        {id : ℕ} (after : ℕ)
        → Chain start id
        → next_error (heap id) ≡ some after
        → Chain start after

module _ (rt : Runtime) (heap : ℕ → ExceptionObject) (start : ℕ) where
  -- An exception that `start` leads to is a failure of the broker.
  pub record HasBrokerError : Type 0 where
    pub id : ℕ
    pub led : Chain heap start id
    pub is_broker : is_broker_class rt (heap id) ≡ true

  -- An answer, which is true exactly if there is such an exception.
  pub record Decides (answer : Option Bool) : Type 0 where
    pub verdict : Bool
    pub given : answer ≡ some verdict
    pub sound : verdict ≡ true → HasBrokerError
    pub complete : HasBrokerError → verdict ≡ true

  -- The visited exceptions are no failures of the broker, lead to each other or to the current one,
  -- and `start` is among them or is the current one.
  record IsWalk (visited : List ℕ) (current : Option ℕ) : Type 0 where
    harmless : (id : ℕ) → is_visited id visited ≡ true → is_broker_class rt (heap id) ≡ false
    leads :
        (id after : ℕ)
        → is_visited id visited ≡ true
        → next_error (heap id) ≡ some after
        → (is_visited after visited ≡ true) ⊎ (current ≡ some after)
    started : (is_visited start visited ≡ true) ⊎ (current ≡ some start)
    reached : (id : ℕ) → current ≡ some id → Chain heap start id

  -- Where the walk ends, all that `start` leads to has been visited.
  module _ (visited : List ℕ) (current : Option ℕ) (walk : IsWalk visited current)
      (ends : (id : ℕ) → current ≡ some id → is_visited id visited ≡ true) where
    or_ended :
        (id : ℕ)
        → (is_visited id visited ≡ true) ⊎ (current ≡ some id)
        → is_visited id visited ≡ true
    or_ended id (inl h) = h
    or_ended id (inr h) = ends id h

    seen : {id : ℕ} → Chain heap start id → is_visited id visited ≡ true
    seen here = or_ended start walk.started
    seen (next {id} after led e) = or_ended after (walk.leads id after (seen led) e)

    Decides-no : Decides (some false)
    Decides-no = record {
      verdict = false;
      given = refl;
      sound = λ h. cc;
      complete = λ found.
          let harmless = walk.harmless found.id (seen found.led) in
          let broken = found.is_broker in cc;
    }

  module _ (visited : List ℕ) (id : ℕ) (walk : IsWalk visited (some id)) where
    Decides-yes : is_broker_class rt (heap id) ≡ true → Decides (some true)
    Decides-yes broken = record {
      verdict = true;
      given = refl;
      sound = λ h. record { id = id; led = walk.reached id refl; is_broker = broken };
      complete = λ found. refl;
    }

    -- A visited exception of the longer list is the new one, or one of the others.
    visited_cases :
        (j : ℕ) → is_visited j (id ∷ visited) ≡ true → (id ≡ j) ⊎ (is_visited j visited ≡ true)
    unfolding is_visited
    visited_cases j h = elim (Bool-cases (id == j)) [
      | inl same ↦ inl (ground arith)
      | inr other ↦ inr (rw other at h)
    ]

    visited_more : (j : ℕ) → is_visited j visited ≡ true → is_visited j (id ∷ visited) ≡ true
    unfolding is_visited
    visited_more j h = ground (arith, h)

    visited_new : (j : ℕ) → id ≡ j → is_visited j (id ∷ visited) ≡ true
    unfolding is_visited
    visited_new j h = ground (arith, h)

    IsWalk-on : is_broker_class rt (heap id) ≡ false → IsWalk (id ∷ visited) (next_error (heap id))
    IsWalk-on harmless = record {
      harmless = λ j h. elim (visited_cases j h) [
        | inl same ↦ subst (λ k. is_broker_class rt (heap k) ≡ false) same harmless
        | inr old ↦ walk.harmless j old
      ];
      leads = λ j after h e. elim (visited_cases j h) [
        | inl same ↦ inr (subst (λ k. next_error (heap k) ≡ some after) (sym same) e)
        | inr old ↦ stays after (walk.leads j after old e)
      ];
      started = stays start walk.started;
      reached = λ j e. next j (walk.reached id refl) e;
    }
      where
        stays :
            (j : ℕ)
            → (is_visited j visited ≡ true) ⊎ (◌≡◌ {A = Option ℕ} (some id) (some j))
            → (is_visited j (id ∷ visited) ≡ true) ⊎ (next_error (heap id) ≡ some j)
        stays j (inl old) = inl (visited_more j old)
        stays j (inr same) = inl (visited_new j (cc))

  module _ (n : ℕ) (closed : IsClosed heap n) where
    loop-Decides :
        (fuel : ℕ) (visited : List ℕ) (current : Option ℕ)
        → unseen n visited < fuel
        → ((id : ℕ) → current ≡ some id → id < n)
        → IsWalk visited current
        → Decides (broker_loop rt heap fuel visited current)
    unfolding broker_loop
    loop-Decides fuel visited none enough below walk = Decides-no visited none walk (λ id e. cc)
    loop-Decides zero visited (some id) enough below walk = absurd (omega arith)
    loop-Decides (suc fuel) visited (some id) enough below walk =
        elim (Bool-cases (is_visited id visited)) [
          | inl old ↦ rw old (
              Decides-no visited (some id) walk
                (λ j e. subst (λ k. is_visited k visited ≡ true) (cc) old))
          | inr new ↦ rw new (elim (Bool-cases (is_broker_class rt (heap id))) [
            | inl broken ↦ rw broken (Decides-yes visited id walk broken)
            | inr harmless ↦ rw harmless (
                let fewer = unseen_visit n id visited (below id refl) new in
                loop-Decides fuel (id ∷ visited) (next_error (heap id))
                  (omega (arith, fewer, enough)) (λ j e. closed id j (below id refl) e)
                  (IsWalk-on visited id walk harmless))
          ])
        ]

    start-IsWalk : IsWalk [] (some start)
    unfolding is_visited
    start-IsWalk = record {
      harmless = λ id h. cc;
      leads = λ id after h e. cc;
      started = inr refl;
      reached = λ id e. subst (Chain heap start) (cc) here;
    }

    -- Among `n` exceptions that lead to no others, the walk from any of them ends, also where they
    -- lead to each other in a circle, and it answers that there is a failure of the broker exactly
    -- if the first one is one, or leads to one by its causes and contexts.
    pub broker_error_decided : start < n → Decides (is_broker_error rt heap n start)
    unfolding is_broker_error
    broker_error_decided below =
        loop-Decides (suc n) [] (some start) (omega (arith, unseen_none n))
          (λ id e. subst (λ k. k < n) (cc) below) start-IsWalk
