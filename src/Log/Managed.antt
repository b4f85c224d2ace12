-- ===== src/Log/Managed.antt =====
-- The loggers of the manager.
use mnser.Common.{ℕ, ◌<◌, List, [], ◌∷◌, true, none, some, ◌==◌, ==_iff, if◌then◌else◌, ◌≢◌, ◌⊎◌}
use mnser.Common.{◌≡◌, refl, ap, sym, ◌∙◌, arith, Bool-cases, Option-cases, inl, inr, subst}
use mnser.Common.Text.{Text, codes, eq_text, eq_text_iff}
use mnser.Log.Loggers.{
  Logger, LogState, store, find_logger, assign_logger, make_logger, get_logger, new_logger,
  new_manager, add_appender, add_appender,
}

pub find-assign :
    (es : List (Text × ℕ)) (name other : Text) (l : ℕ)
    → find_logger (assign_logger es name l) other
      ≡ (if eq_text name other then some l else find_logger es other)
unfolding find_logger assign_logger
find-assign [] name other l = refl
find-assign (e ∷ es) name other l = ground (
  arith,
  eq_text_iff e.0 name,
  eq_text_iff e.0 other,
  eq_text_iff name other,
  find-assign es name other l,
)

-- Every name leads to a logger that has been made and has that name.
pub record Named (s : LogState) : Type 0 where
  pub made : (name : Text) (l : ℕ) → find_logger s.loggers name ≡ some l → l < s.next_logger
  pub named : (name : Text) (l : ℕ) → find_logger s.loggers name ≡ some l → (s.logger l).name ≡ name

name-new_logger : (name : Text) → (new_logger name).name ≡ name
unfolding new_logger
name-new_logger name = refl

eq_text_self : (name : Text) → eq_text name name ≡ true
eq_text_self name = (eq_text_iff name name).1 refl

pub store-below {ℓ} : {A : Type ℓ} (m : ℕ → A) (n : ℕ) (v : A) (k : ℕ) → k < n → store m n v k ≡ m k
store-below m n v k h = elim (Bool-cases (k == n)) [
  | inl same ↦ absurd (ground (arith, same))
  | inr other ↦ rw other refl
]

pub store-same {ℓ} : {A : Type ℓ} (m : ℕ → A) (n : ℕ) (v : A) → store m n v n ≡ v
store-same m n v = rw ((==_iff n n).1 refl) refl

found_now :
    (s : LogState) (name : Text)
    → find_logger (make_logger s name).0.loggers name ≡ some s.next_logger
unfolding make_logger
found_now s name =
    find-assign s.loggers name name s.next_logger
    ∙ ap (λ b. if b then some s.next_logger else find_logger s.loggers name) (eq_text_self name)

others_kept :
    (s : LogState) (name other : Text)
    → other ≢ name
    → find_logger (make_logger s name).0.loggers other ≡ find_logger s.loggers other
unfolding make_logger
others_kept s name other h =
    ground (arith, find-assign s.loggers name other s.next_logger, eq_text_iff name other, h)

new_name : (s : LogState) (name : Text) → ((make_logger s name).0.logger s.next_logger).name ≡ name
unfolding make_logger
new_name s name =
    ap (λ (x : Logger). x.name)
      (store-same s.logger s.next_logger (record (new_logger name) { root = some s.root }))
    ∙ name-new_logger name

found-cases :
    (s : LogState) (name other : Text) (l : ℕ)
    → find_logger (make_logger s name).0.loggers other ≡ some l
    → ((l ≡ s.next_logger) × (other ≡ name)) ⊎ (find_logger s.loggers other ≡ some l)
unfolding make_logger
found-cases s name other l h = elim (Bool-cases (eq_text name other)) [
  | inl same ↦ inl (
    ground (arith, find-assign s.loggers name other s.next_logger),
    sym ((eq_text_iff name other).0 same),
  )
  | inr differs ↦ inr (ground (arith, find-assign s.loggers name other s.next_logger))
]

make_logger-Named : (s : LogState) (name : Text) → Named s → Named (make_logger s name).0
unfolding make_logger
make_logger-Named s name v = record {
  made = λ other l h. elim (found-cases s name other l h) [
    | inl (new, same) ↦ omega arith
    | inr old ↦ omega (arith, v.made other l old)
  ];
  named = λ other l h. elim (found-cases s name other l h) [
    | inl (new, same) ↦
        ap (λ k. ((make_logger s name).0.logger k).name) new ∙ new_name s name ∙ sym same
    | inr old ↦
        ap (λ (x : Logger). x.name) (store-below s.logger s.next_logger _ l (v.made other l old))
        ∙ v.named other l old
  ];
}

-- What a call of `getLogger` does: it leads to a logger with that name, and does again.
pub record Got (s : LogState) (name : Text) (r : LogState × ℕ) : Type 0 where
  pub all_named : Named r.0
  pub has_name : (r.0.logger r.1).name ≡ name
  pub leads : find_logger r.0.loggers name ≡ some r.1
  pub again : get_logger r.0 name ≡ r
  pub kept : (k : ℕ) → k < s.next_logger → r.0.logger k ≡ s.logger k
  pub others :
      (other : Text) → other ≢ name → find_logger r.0.loggers other ≡ find_logger s.loggers other
  pub below_root : find_logger s.loggers name ≡ none → (r.0.logger r.1).root ≡ some s.root

get_old :
    (s : LogState) (name : Text) (l : ℕ)
    → find_logger s.loggers name ≡ some l
    → get_logger s name ≡ (s, l)
unfolding get_logger
get_old s name l e = rw (e, get_logger) refl

get_new :
    (s : LogState) (name : Text)
    → find_logger s.loggers name ≡ none
    → get_logger s name ≡ make_logger s name
unfolding get_logger
get_new s name e = rw (e, get_logger) refl

make_logger-Got :
    (s : LogState) (name : Text)
    → Named s
    → find_logger s.loggers name ≡ none
    → Got s name (make_logger s name)
unfolding make_logger
make_logger-Got s name v e = record {
  all_named = make_logger-Named s name v;
  has_name = new_name s name;
  leads = found_now s name;
  again = get_old (make_logger s name).0 name s.next_logger (found_now s name);
  kept = λ k h. store-below s.logger s.next_logger _ k h;
  others = λ other h. others_kept s name other h;
  below_root = λ h. ap (λ (x : Logger). x.root) (store-same s.logger s.next_logger _);
}

-- `getLogger` gives a logger of that name, and the same one when it is called again; the loggers
-- that there were stay as they are, and the other names lead where they led. A new one has the
-- manager's root above it. The condition, which is kept, is that each name leads to a logger that was
-- made and has that name.
pub get_logger_lem : (s : LogState) (name : Text) → Named s → Got s name (get_logger s name)
get_logger_lem s name v = elim (Option-cases (find_logger s.loggers name)) [
  | inr (l, e) ↦ subst (Got s name) (sym (get_old s name l e)) (record {
    all_named = v;
    has_name = v.named name l e;
    leads = e;
    again = get_old s name l e;
    kept = λ k h. refl;
    others = λ other h. refl;
    below_root = λ h. absurd (cc);
  })
  | inl e ↦ subst (Got s name) (sym (get_new s name e)) (make_logger-Got s name v e)
]

all_root : (l : ℕ) → (new_manager.logger l).name ≡ codes "root"
unfolding new_manager add_appender new_logger
all_root l = elim (Bool-cases (l == 0)) [ inl first ↦ rw first refl | inr other ↦ rw other refl ]

pub new_manager-Named : Named new_manager
unfolding new_manager add_appender find_logger new_logger
new_manager-Named = record {
  made = λ name l h. ground (arith, h);
  named = λ name l h. elim (Bool-cases (eq_text (codes "root") name)) [
    | inl this ↦ all_root l ∙ (eq_text_iff (codes "root") name).0 this
    | inr other ↦ absurd (ground arith)
  ];
}
