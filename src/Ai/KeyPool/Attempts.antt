-- ===== src/Ai/KeyPool/Attempts.antt =====
-- pkg/ai/api_key_pool.go: what a call leaves behind.
use midas.Common.{
  ℕ, ◌+◌, ◌<◌, ◌≤◌, ◌≡◌, refl, ap, ◌∙◌, Bool, true, false, Option, none, some, List, [], ◌∷◌, All,
  arith, ◌⊎◌, Bool-cases, inl, inr, if◌then◌else◌,
}
use midas.Common.Text.{Text, text_eq, text_eq→eq, text_eq_refl}
use midas.Ai.KeyPool.{
  ProviderError, unknown_health, Pool, holds, set_aside, candidates, retries, rate_limit_cooldown,
  mark_healthy, mark_failure, Change, healthy_change, failure_change, after_change, after_changes,
  Attempt, opened, failed, streams, refused, all_failed, Trial, ends, joined, note_attempt,
  try_keys, error_of,
}
use midas.Ai.KeyPool.Candidates.{candidates_are}

-- A key that is set aside until an instant or longer.
IsAside : Text → ℕ → Pool → Type 0
IsAside k until p = (until ≤ (p.health k).invalid_until) ⊎ (until ≤ (p.health k).limited_until)

-- A change that neither records a success of the key nor a failure of it that was before an instant.
abbrev pub Spares : Text → ℕ → Change → Type 0
Spares k at (healthy_change key) = text_eq key k ≡ false
Spares k at (failure_change key e t) = text_eq key k ≡ true → at ≤ t

IsAside-after_change :
    (k : Text) (at : ℕ) (c : Change) (p : Pool)
    → Spares k at c
    → IsAside k (at + rate_limit_cooldown) p
    → IsAside k (at + rate_limit_cooldown) (after_change c p)
unfolding IsAside after_change mark_healthy mark_failure
IsAside-after_change k at (healthy_change key) p s h = rw s h
IsAside-after_change k at (failure_change key e t) p s h = elim (Bool-cases (text_eq key k)) [
  | inl q ↦ ground (arith, q, s q, h, text_eq→eq key k q)
  | inr q ↦ ground (arith, q, h)
]

IsAside-after_changes :
    (k : Text) (at : ℕ) (cs : List Change) (p : Pool)
    → All (Spares k at) cs
    → IsAside k (at + rate_limit_cooldown) p
    → IsAside k (at + rate_limit_cooldown) (after_changes cs p)
unfolding after_changes
IsAside-after_changes k at [] p s h = h
IsAside-after_changes k at (c ∷ cs) p s h =
    IsAside-after_changes k at cs (after_change c p) s.1 (IsAside-after_change k at c p s.0 h)

IsAside-mark_failure :
    (k : Text) (e : ProviderError) (at : ℕ) (p : Pool)
    → retries e ≡ true
    → IsAside k (at + rate_limit_cooldown) (mark_failure k e at p).0
unfolding IsAside mark_failure
IsAside-mark_failure k e at p r = ground (arith, text_eq_refl k, r)

set_aside-IsAside :
    (k : Text) (until now : ℕ) (p : Pool)
    → now < until
    → IsAside k until p
    → set_aside (p.health k) now ≡ true
unfolding IsAside
set_aside-IsAside k until now p b h = ground (arith, b, h)

-- Once the failure of a key has been recorded in a way that another key may help (a status of 401,
-- 403 or 429), the key is no candidate of a call less than a minute after its failure, whatever
-- this call and others, one at a time or at once, record in the meantime, unless that is a success
-- of the same key or a failure of it from before.
pub failed_key_waits :
    (k preferred : Text) (e : ProviderError) (at now : ℕ) (meanwhile : List Change) (p : Pool)
    → retries e ≡ true
    → now < at + rate_limit_cooldown
    → All (Spares k at) meanwhile
    → holds (candidates (after_changes meanwhile (mark_failure k e at p).0) preferred now).0 k
      ≡ false
failed_key_waits k preferred e at now meanwhile p r b s =
    let p' = after_changes meanwhile (mark_failure k e at p).0 in
    let aside = set_aside-IsAside k (at + rate_limit_cooldown) now p' b (
      IsAside-after_changes k at meanwhile (mark_failure k e at p).0 s
        (IsAside-mark_failure k e at p r)) in
    ground (arith, candidates_are p' preferred now k, aside)

module _ {S : Type 0} where
  -- What a call that goes on after a failed attempt ends with.
  failure_goes_on :
      (b : Bool) (key : Text) (x : ProviderError) (p : Pool) (rest : Trial S) (s : S)
      → (joined key p (if b then none else some (refused x)) rest).outcome ≡ streams s
      → (b ≡ true) × (rest.outcome ≡ streams s)
  failure_goes_on true key x p rest s h = (refl, h)
  failure_goes_on false key x p rest s h = absurd (ground arith)

  -- A call that opens a stream, whatever other calls change while it waits for its attempts, has
  -- made the key that opened it the active one, with nothing held against it, when it last changes
  -- the pool.
  pub stream_is_of_active :
      (provider : Text → Attempt S) (meanwhile : Text → List Change) (keys : List Text)
      (last : Option ProviderError) (p : Pool) (s : S)
      → (try_keys provider meanwhile keys last p).outcome ≡ streams s
      → (provider (try_keys provider meanwhile keys last p).pool.active ≡ opened s)
        × ((try_keys provider meanwhile keys last p).pool.health
              (try_keys provider meanwhile keys last p).pool.active
            ≡ unknown_health)
  unfolding try_keys mark_healthy after_change
  stream_is_of_active provider meanwhile [] last p s h = absurd (ground arith)
  stream_is_of_active provider meanwhile (key ∷ keys) last p s h =
      after (λ l q g. stream_is_of_active provider meanwhile keys l q s g) (provider key) refl h
    where
      here : Pool
      here = after_changes (meanwhile key) p

      rest : Attempt S → Trial S
      rest a = try_keys provider meanwhile keys (error_of a) (note_attempt key a here)

      whole : Attempt S → Trial S
      whole a = joined key (note_attempt key a here) (ends a) (rest a)

      after :
          ((l : Option ProviderError) (q : Pool)
            → (try_keys provider meanwhile keys l q).outcome ≡ streams s
            → (provider (try_keys provider meanwhile keys l q).pool.active ≡ opened s)
              × ((try_keys provider meanwhile keys l q).pool.health
                    (try_keys provider meanwhile keys l q).pool.active
                  ≡ unknown_health))
          → (a : Attempt S) → provider key ≡ a
          → (whole a).outcome ≡ streams s
          → (provider (whole a).pool.active ≡ opened s)
            × ((whole a).pool.health (whole a).pool.active ≡ unknown_health)
      after ih (opened s') e h = (e ∙ cc, rw (text_eq_refl key) refl)
      after ih (failed x at) e h =
          let p' = (mark_failure key x at here).0 in
          let (r, h') = failure_goes_on (retries x) key x p' (rest (failed x at)) s h in
          rw r (ih (some x) p' h')

  -- A call that gives up has tried each of its candidates, in their order, whatever other calls
  -- change while it waits for its attempts.
  pub giving_up_tries_all :
      (provider : Text → Attempt S) (meanwhile : Text → List Change) (keys : List Text)
      (last e : Option ProviderError) (p : Pool)
      → (try_keys provider meanwhile keys last p).outcome ≡ all_failed e
      → (try_keys provider meanwhile keys last p).tried ≡ keys
  unfolding try_keys after_change
  giving_up_tries_all provider meanwhile [] last e p h = refl
  giving_up_tries_all provider meanwhile (key ∷ keys) last e p h =
      after (λ l q g. giving_up_tries_all provider meanwhile keys l e q g) (provider key) h
    where
      here : Pool
      here = after_changes (meanwhile key) p

      whole : Attempt S → Trial S
      whole a =
          joined key (note_attempt key a here) (ends a)
            (try_keys provider meanwhile keys (error_of a) (note_attempt key a here))

      going :
          (b : Bool) (x : ProviderError) (p' : Pool) (rest : Trial S)
          → (rest.outcome ≡ all_failed e → rest.tried ≡ keys)
          → (joined key p' (if b then none else some (refused x)) rest).outcome ≡ all_failed e
          → (joined key p' (if b then none else some (refused x)) rest).tried ≡ key ∷ keys
      going true x p' rest ih h = ap (key ∷◌) (ih h)
      going false x p' rest ih h = absurd (ground arith)

      after :
          ((l : Option ProviderError) (q : Pool)
            → (try_keys provider meanwhile keys l q).outcome ≡ all_failed e
            → (try_keys provider meanwhile keys l q).tried ≡ keys)
          → (a : Attempt S) → (whole a).outcome ≡ all_failed e
          → (whole a).tried ≡ key ∷ keys
      after ih (opened s') h = absurd (ground arith)
      after ih (failed x at) h =
          let p' = (mark_failure key x at here).0 in
          going (retries x) x p' (try_keys provider meanwhile keys (some x) p') (ih (some x) p') h
