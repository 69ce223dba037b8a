-- ===== src/Populator/Progress.antt =====
-- Whole rounds of the messages of a publisher, and a part of one more.
use mathlib.Core.List.{append-nil, append_assoc}
use cf_app_sd_release.Base.{
  List, Str, [], ap, arith, refl, suc, sym, zero, ℕ, ◌++◌, ◌∙◌, ◌∷◌, ◌≡◌, ◌≤◌,
}
use cf_app_sd_release.Populator.Publisher.{Publisher, announcements}

-- `k` rounds.
unfoldable pub repeated : ℕ → List (Str × Str) → List (Str × Str)
repeated zero l = []
repeated (suc k) l = repeated k l ++ l

-- What a publisher sends in a round.
abbrev pub round_of : Publisher → List (Str × Str)
round_of p = announcements p.messages

-- Some rounds, at least `least`, and then a round without `left`.
pub record HasSent (p : Publisher) (least : ℕ) (left sent : List (Str × Str)) : Type 0 where
  pub rounds : ℕ
  pub part : List (Str × Str)
  pub enough : least ≤ rounds
  pub split : part ++ left ≡ round_of p
  pub all : sent ≡ repeated rounds (round_of p) ++ part

pub nothing_sent : (p : Publisher) → HasSent p 0 (round_of p) []
unfolding repeated
nothing_sent p = record { rounds = 0; part = []; enough = omega arith; split = refl; all = refl }

pub one_sent :
    (p : Publisher) (least : ℕ) (m : Str × Str) (left sent : List (Str × Str))
    → HasSent p least (m ∷ left) sent
    → HasSent p least left (sent ++ m ∷ [])
one_sent p least m left sent h = record {
  rounds = h.rounds;
  part = h.part ++ m ∷ [];
  enough = h.enough;
  split = append_assoc h.part (m ∷ []) left ∙ h.split;
  all = ap (λ l. l ++ m ∷ []) h.all ∙ append_assoc (repeated h.rounds (round_of p)) h.part (m ∷ []);
}

-- A round that has ended counts.
pub round_sent :
    (p : Publisher) (least : ℕ) (sent : List (Str × Str))
    → HasSent p least [] sent
    → HasSent p (suc least) (round_of p) sent
unfolding repeated
round_sent p least sent h = record {
  rounds = suc h.rounds;
  part = [];
  enough = omega (arith, h.enough);
  split = refl;
  all =
      h.all
      ∙ ap (λ l. repeated h.rounds (round_of p) ++ l) (sym (append-nil h.part) ∙ h.split)
      ∙ sym (append-nil (repeated h.rounds (round_of p) ++ round_of p));
}

pub at_least :
    (p : Publisher) (least less : ℕ) (left sent : List (Str × Str))
    → less ≤ least
    → HasSent p least left sent
    → HasSent p less left sent
at_least p least less left sent le h = record {
  rounds = h.rounds;
  part = h.part;
  enough = omega (arith, le, h.enough);
  split = h.split;
  all = h.all;
}
