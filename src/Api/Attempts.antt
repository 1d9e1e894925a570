-- ===== src/Api/Attempts.antt =====
-- How many logins an address may try.
use scuttlebot.Common.{
  length-append, ℕ, ◌+◌, ◌≤◌, Text, text_eq, text_eq_iff, List, [], ◌∷◌, ◌++◌, ◌≡◌, inl, inr, refl,
  arith, Bool-cases, if◌then◌else◌, leb, length,
}
use scuttlebot.Common.Dict
use scuttlebot.Common.Dict.{Dict}
use scuttlebot.Common.Windows.{within, noted_within}
use scuttlebot.Common.Recent.{snoc_append, append_nil}
use scuttlebot.Api.Login.{
  LoginRateLimiter, new_login_rate_limiter, minute, max_attempts, attempts_of, allow,
}

-- The limiter after these attempts, each an address and a time.
pub attempt_all : List (Text × ℕ) → LoginRateLimiter → LoginRateLimiter
attempt_all [] rl = rl
attempt_all ((ip, t) ∷ tries) rl = attempt_all tries (allow ip t rl).1

-- The times of the attempts of one address.
abbrev pub times_of : Text → List (Text × ℕ) → List ℕ
times_of ip [] = []
times_of ip ((other, t) ∷ tries) =
    let rest = times_of ip tries in if text_eq other ip then t ∷ rest else rest

abbrev pub Ordered : ℕ → List (Text × ℕ) → Type 0
Ordered last [] = Unit
Ordered last ((ip, t) ∷ tries) = (last ≤ t) × Ordered t tries

abbrev pub last_time : ℕ → List (Text × ℕ) → ℕ
last_time last [] = last
last_time last ((ip, t) ∷ tries) = last_time t tries

attempts_of-allow :
    (ip other : Text) (now : ℕ) (rl : LoginRateLimiter)
    → attempts_of (allow ip now rl).1 other ≡ (
        if text_eq ip other
        then within now minute (attempts_of rl ip) ++ (now ∷ [])
        else attempts_of rl other)
unfolding allow attempts_of
attempts_of-allow ip other now rl =
    ground (
      arith,
      Dict.get-put rl.windows ip other (within now minute (attempts_of rl ip) ++ (now ∷ [])),
    )

attempt_all_lem :
    (ip : Text) (past : List ℕ) (tries : List (Text × ℕ)) (last now : ℕ) (rl : LoginRateLimiter)
    → ((later : ℕ)
        → last ≤ later
        → within later minute (attempts_of rl ip) ≡ within later minute past)
    → Ordered last tries
    → last_time last tries ≤ now
    → within now minute (attempts_of (attempt_all tries rl) ip)
      ≡ within now minute (past ++ times_of ip tries)
unfolding attempt_all
attempt_all_lem ip past [] last now rl same order le = rw (append_nil past) (same now le)
attempt_all_lem ip past ((other, t) ∷ tries) last now rl same (first, order) le =
    elim (Bool-cases (text_eq other ip)) [
      | inl own ↦ rw own (
          rw (← snoc_append past t (times_of ip tries)) (
            attempt_all_lem ip (past ++ (t ∷ [])) tries t now (allow other t rl).1
              (λ later h.
                rw (attempts_of-allow other ip t rl, own, (text_eq_iff other ip).0 own)
                  (noted_within t later minute past (attempts_of rl ip) (same t first) h))
              order le))
      | inr strange ↦ rw strange (
          attempt_all_lem ip past tries t now (allow other t rl).1
            (λ later h.
              rw (attempts_of-allow other ip t rl, strange) (same later (omega (arith, h, first))))
            order le)
    ]

-- An attempt to log in is allowed exactly when, with the attempts of the same address in the minute
-- before, the refused ones included, there are at most ten. The attempts of other addresses do not count.
pub allow-attempt_all :
    (ip : Text) (tries : List (Text × ℕ)) (now : ℕ)
    → Ordered 0 tries
    → last_time 0 tries ≤ now
    → (allow ip now (attempt_all tries new_login_rate_limiter)).0
      ≡ leb (length (within now minute (times_of ip tries)) + 1) max_attempts
unfolding allow attempts_of Dict.get
allow-attempt_all ip tries now order le =
    let kept =
      attempt_all_lem ip [] tries 0 now new_login_rate_limiter (λ later h. refl) order le in
    ground (
      arith,
      kept,
      length-append (within now minute (attempts_of (attempt_all tries new_login_rate_limiter) ip))
          (now ∷ []),
    )
