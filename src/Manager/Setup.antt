-- ===== src/Manager/Setup.antt =====
-- manager/manager.go: the registration of a scale set and the message session, over GitHub's scale
-- set client, which is a parameter.
use orchard_gh_bridge.Base.{
  ℕ, zero, suc, ◌+◌, ◌≤◌, Error, ◌*◌, ◌≡◌, refl, inl, inr, leb, Bool, true, false, ◌||◌,
  if◌then◌else◌, Text, text_eq, codes, is_empty, List, Option, none, some, wrapped, ok, err, is_ok,
  Done, Io, ◌>>=◌, pure, wrap_err, Result-cases, Bool-cases, arith,
}
use orchard_gh_bridge.Base.Int.{ℤ, pos}
use orchard_gh_bridge.Base.Time.{Duration, second}
use orchard_gh_bridge.Config.{ScaleSetConfig}

-- scaleset.RunnerScaleSet, by the fields that the program sets; DisableUpdate is always true.
pub record RunnerScaleSet : Type 0 where
  pub name : Text
  pub runner_group_id : ℤ
  pub labels : List Text

-- The calls of the scale set client; a scale set is answered by its ID. A session client is not
-- looked into. `sleep` waits, and answers whether the context was cancelled meanwhile.
pub record Github (W : Type 0) : Type 0 where
  pub get_runner_group_by_name : Text → Io W ℤ
  pub get_runner_scale_set : ℤ → Text → Io W (Option ℤ)
  pub update_runner_scale_set : ℤ → RunnerScaleSet → Io W ℤ
  pub create_runner_scale_set : RunnerScaleSet → Io W ℤ
  pub message_session : ℤ → W → Done × W
  pub sleep : Duration → W → Bool × W

-- How the loop for the message session ends; `out_of_rounds` is a model that looked no further.
pub data Session : Type 0 where
  out_of_rounds : Session
  interrupted : Session
  refused : Error → Session
  opened : Session

-- The loop came to its end by itself.
abbrev pub is_answered : Session → Bool
is_answered (refused e) = true
is_answered opened = true
is_answered _ = false

abbrev pub is_open : Session → Bool
is_open opened = true
is_open _ = false

module _ {W : Type 0} (gh : Github W) where
  -- The runner group of registerScaleSet, 1 by default.
  pub runner_group_id : ScaleSetConfig → Io W ℤ
  runner_group_id cfg =
      if is_empty cfg.runner_group || text_eq cfg.runner_group (codes "default")
      then pure (pos 1)
      else wrap_err (codes "getting runner group") (gh.get_runner_group_by_name cfg.runner_group)

  -- desired of registerScaleSet
  pub desired_scale_set : ScaleSetConfig → ℤ → RunnerScaleSet
  desired_scale_set cfg group = record {
    name = cfg.name;
    runner_group_id = group;
    labels = cfg.labels;
  }

  -- registerScaleSet past the runner group: a scale set that is found is updated, and any error of
  -- the look-up counts as not found.
  pub update_or_create : ScaleSetConfig → ℤ → Io W ℤ
  update_or_create cfg group w =
      let (found, w') = gh.get_runner_scale_set group cfg.name w in
      let create =
        wrap_err (codes "creating scale set")
          (gh.create_runner_scale_set (desired_scale_set cfg group)) w' in
      elim found [
        | err e ↦ create
        | ok existing ↦ elim existing [
          | none ↦ create
          | some id ↦
              wrap_err (codes "updating scale set")
                (gh.update_runner_scale_set id (desired_scale_set cfg group)) w'
        ]
      ]

  -- registerScaleSet
  pub register_scale_set : ScaleSetConfig → Io W ℤ
  register_scale_set cfg = do group ← runner_group_id cfg; update_or_create cfg group

  -- The loop of runScaleSet for the message session, with the rounds that the model looks at and
  -- the number of this attempt.
  pub open_session : ℕ → ℕ → ℤ → W → Session × W
  open_session zero attempt id w = (out_of_rounds, w)
  open_session (suc fuel) attempt id w =
      let (r, w') = gh.message_session id w in
      let (cancelled, w'') = gh.sleep (pos (attempt * 3 * second)) w' in
      let again = open_session fuel (attempt + 1) id w'' in
      elim r [
        | ok _ ↦ (opened, w')
        | err e ↦
            if leb 10 attempt
            then (refused (wrapped (codes "creating message session") e), w')
            else if cancelled
            then (interrupted, w'')
            else again
      ]

  -- The whole loop, which ends at the tenth attempt at the latest.
  pub create_session : ℤ → W → Session × W
  create_session id w = open_session 10 1 id w

  -- Whether one of the next attempts opens a session, each on the world that the one before and the
  -- wait after it leave.
  pub opens_within : ℕ → ℕ → ℤ → W → Bool
  opens_within zero attempt id w = false
  opens_within (suc left) attempt id w =
      let (r, w') = gh.message_session id w in
      is_ok r || opens_within left (attempt + 1) id (gh.sleep (pos (attempt * 3 * second)) w').1

  open_session-opens :
      (left attempt : ℕ) (id : ℤ) (w : W)
      → 1 ≤ left
      → left + attempt ≡ 11
      → ((d : Duration) (v : W) → (gh.sleep d v).0 ≡ false)
      → (is_answered (open_session left attempt id w).0 ≡ true)
        × (is_open (open_session left attempt id w).0 ≡ opens_within left attempt id w)
  unfolding open_session opens_within
  open_session-opens zero attempt id w lt e running = absurd (omega (arith, lt))
  open_session-opens (suc left) attempt id w lt e running =
      let (r, w') = gh.message_session id w in
      let wait = pos (attempt * 3 * second) in
      let rest : 1 ≤ left → _ = λ more.
        open_session-opens left (attempt + 1) id (gh.sleep wait w').1 more (omega arith) running in
      elim (Result-cases r) [
        | inl (u, q) ↦ rw (q, open_session) (refl, refl)
        | inr (x, q) ↦ elim (Bool-cases (leb 10 attempt)) [
          | inl last ↦
              let none_left : left ≡ 0 = ground arith in
              rw (q, last, none_left, open_session) (refl, refl)
          | inr more ↦ rw (q, more, running wait w', open_session) (rest (ground (arith, more, e)))
        ]
      ]

  -- While the context is not cancelled, the loop for the message session ends within ten rounds,
  -- and with a session exactly if one of ten attempts opens one, otherwise with an error.
  pub create_session_lem :
      (id : ℤ) (w : W)
      → ((d : Duration) (v : W) → (gh.sleep d v).0 ≡ false)
      → (is_answered (create_session id w).0 ≡ true)
        × (is_open (create_session id w).0 ≡ opens_within 10 1 id w)
  unfolding create_session
  create_session_lem id w running = open_session-opens 10 1 id w (omega arith) (omega arith) running
