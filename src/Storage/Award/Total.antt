-- ===== src/Storage/Award/Total.antt =====
-- What a user's score is after a statement, or a run of statements, that gives points.
use wcwcpp_backend.Base.{
  ◌≡◌, refl, sym, ap, ◌∙◌, Bool, true, false, List, [], ◌∷◌, arith, if◌then◌else◌, ◌==◌, nat_eq,
  ==_iff, Bool-cases, inl, inr, if_elim,
}
use wcwcpp_backend.Base.Int.{ℤ, pos, ◌+ℤ◌, int_laws}
use wcwcpp_backend.Entity.{Uuid}
use wcwcpp_backend.Rows.{Db, ContestStandingRow}
use wcwcpp_backend.Sql.{Error, upsert, exec, on_error, ok, err, driver}
use wcwcpp_backend.Sql.Post.{
  Yields, Then, exec-Yields, on_error-Yields, then-Yields, pure-Yields, weaken-Yields,
}
use wcwcpp_backend.Storage.Award.{
  Stage, score, with_score, standing_key, zero_row, add_points, paid, award, award_all, is_refused,
}

-- The score of a user in a table: that of the user's row, or 0 where there is none.
abbrev pub score_in : Stage → Uuid → Uuid → List ContestStandingRow → ℤ
score_in st contest user [] = pos 0
score_in st contest user (r ∷ rs) =
    if standing_key contest user r then score st r else score_in st contest user rs

abbrev pub score_of : Stage → Uuid → Uuid → Db → ℤ
score_of st contest user db = score_in st contest user db.contest_standings

-- The points for one user in a list: each time the user stands in it.
abbrev pub points_for : Uuid → ℤ → List Uuid → ℤ
points_for user points [] = pos 0
points_for user points (u ∷ us) =
    let rest = points_for user points us in if u == user then points +ℤ rest else rest

zero-add : (x : ℤ) → pos 0 +ℤ x ≡ x
zero-add x = omega int_laws

pub +ℤ_zero : (x : ℤ) → x +ℤ pos 0 ≡ x
+ℤ_zero x = omega int_laws

+ℤ_assoc : (a b c : ℤ) → a +ℤ b +ℤ c ≡ a +ℤ (b +ℤ c)
+ℤ_assoc a b c = omega int_laws

module _ (contest user : Uuid) (points : ℤ) where
  -- The user who is paid has that much more.
  score_in-paid :
      (st : Stage) (rows : List ContestStandingRow)
      → score_in st contest user (
          upsert
            (standing_key contest user)
            (add_points st points)
            (with_score st points (zero_row contest user))
            rows)
        ≡ score_in st contest user rows +ℤ points
  score_in-paid Stage.group_stage [] = ground (arith, zero-add points)
  score_in-paid Stage.knockout_stage [] = ground (arith, zero-add points)
  score_in-paid Stage.group_stage (r ∷ rs) = ground (arith, score_in-paid Stage.group_stage rs)
  score_in-paid Stage.knockout_stage (r ∷ rs) =
      ground (arith, score_in-paid Stage.knockout_stage rs)

  -- Every other user has the same score.
  score_in-paid_ne :
      (st st' : Stage) (other : Uuid) (rows : List ContestStandingRow)
      → (user == other) ≡ false
      → score_in st' contest other (
          upsert
            (standing_key contest user)
            (add_points st points)
            (with_score st points (zero_row contest user))
            rows)
        ≡ score_in st' contest other rows
  score_in-paid_ne Stage.group_stage st' other [] ne = ground arith
  score_in-paid_ne Stage.knockout_stage st' other [] ne = ground arith
  score_in-paid_ne Stage.group_stage st' other (r ∷ rs) ne =
      ground (arith, score_in-paid_ne Stage.group_stage st' other rs)
  score_in-paid_ne Stage.knockout_stage st' other (r ∷ rs) ne =
      ground (arith, score_in-paid_ne Stage.knockout_stage st' other rs)

  -- A payment for one stage leaves the scores of the other.
  score_in-paid_other :
      (other : Uuid) (rows : List ContestStandingRow)
      → (score_in Stage.group_stage contest other (
            upsert
              (standing_key contest user)
              (add_points Stage.knockout_stage points)
              (with_score Stage.knockout_stage points (zero_row contest user))
              rows)
          ≡ score_in Stage.group_stage contest other rows)
        × (score_in Stage.knockout_stage contest other (
              upsert
                (standing_key contest user)
                (add_points Stage.group_stage points)
                (with_score Stage.group_stage points (zero_row contest user))
                rows)
            ≡ score_in Stage.knockout_stage contest other rows)
  score_in-paid_other other [] = ground arith
  score_in-paid_other other (r ∷ rs) = ground (arith, score_in-paid_other other rs)

-- The stage that a payment does not touch.
abbrev pub other_stage : Stage → Stage
other_stage Stage.group_stage = Stage.knockout_stage
other_stage Stage.knockout_stage = Stage.group_stage

pub score_of-paid :
    (st : Stage) (contest user other : Uuid) (points : ℤ) (db : Db)
    → score_of st contest other (paid st contest user points db) ≡ (
        if user == other
        then score_of st contest other db +ℤ points
        else score_of st contest other db)
unfolding paid
score_of-paid st contest user other points db = elim (Bool-cases (user == other)) [
  | inl same ↦
      let e : user ≡ other = (==_iff user other).0 same in
      rw (same, ← e) (score_in-paid contest user points st db.contest_standings)
  | inr differ ↦
      rw differ (score_in-paid_ne contest user points st st other db.contest_standings differ)
]

pub score_of-paid_other :
    (st : Stage) (contest user other : Uuid) (points : ℤ) (db : Db)
    → score_of (other_stage st) contest other (paid st contest user points db)
      ≡ score_of (other_stage st) contest other db
unfolding paid
score_of-paid_other Stage.group_stage contest user other points db =
    (score_in-paid_other contest user points other db.contest_standings).1
score_of-paid_other Stage.knockout_stage contest user other points db =
    (score_in-paid_other contest user points other db.contest_standings).0

module _ (st : Stage) (contest user : Uuid) (points : ℤ) where
  -- Paying one user of a list.
  pub award-Yields :
      (f : Error → Error) (u : Uuid) (x : ℤ)
      → Yields
          (λ db. score_of st contest user db ≡ x)
          (on_error f (exec (award st contest u points)))
          (λ _ db. score_of st contest user db ≡ (if u == user then x +ℤ points else x))
  unfolding award
  award-Yields f u x = on_error-Yields f (
      exec-Yields (award st contest u points) λ db p.
        if_elim (Then _) (is_refused st contest u points db) (err (driver "integer out of range"))
          (ok (tt, paid st contest u points db)) tt
          (score_of-paid st contest u user points db
            ∙ ap (λ y. if u == user then y +ℤ points else y) p))

  sum-head :
      (b : Bool) (x rest : ℤ)
      → (if b then x +ℤ points else x) +ℤ rest ≡ x +ℤ (if b then points +ℤ rest else rest)
  sum-head true x rest = +ℤ_assoc x points rest
  sum-head false x rest = refl

  -- Paying a list of users: each gets the points as often as the list names them.
  pub award_all-Yields :
      (f : Error → Error) (us : List Uuid) (x : ℤ)
      → Yields
          (λ db. score_of st contest user db ≡ x)
          (award_all f st contest points us)
          (λ _ db. score_of st contest user db ≡ x +ℤ points_for user points us)
  unfolding award_all
  award_all-Yields f [] x =
      weaken-Yields (λ db p. p ∙ sym (+ℤ_zero x)) (λ _ db p. p) (pure-Yields tt)
  award_all-Yields f (u ∷ us) x =
      let y = if u == user then x +ℤ points else x in
      then-Yields (λ db. score_of st contest user db ≡ y) (award-Yields f u x)
        (weaken-Yields (λ db p. p)
          (λ _ db p. p ∙ sum-head (u == user) x (points_for user points us))
          (award_all-Yields f us y))

  -- Paying leaves the other stage's scores.
  pub award_all-Yields_other :
      (f : Error → Error) (us : List Uuid) (x : ℤ)
      → Yields
          (λ db. score_of (other_stage st) contest user db ≡ x)
          (award_all f st contest points us)
          (λ _ db. score_of (other_stage st) contest user db ≡ x)
  unfolding award_all award
  award_all-Yields_other f [] x = pure-Yields tt
  award_all-Yields_other f (u ∷ us) x =
      then-Yields (λ db. score_of (other_stage st) contest user db ≡ x)
        (on_error-Yields f (
          exec-Yields (award st contest u points) λ db p.
            if_elim (Then _) (is_refused st contest u points db)
              (err (driver "integer out of range")) (ok (tt, paid st contest u points db)) tt
              (score_of-paid_other st contest u user points db ∙ p)))
        (award_all-Yields_other f us x)
