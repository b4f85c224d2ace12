-- ===== src/Log/Retained.antt =====
-- A logger that an item of another name does not concern.
use mnser.Common.{ℕ, false, some, ◌==◌, ==_iff, ◌≢◌}
use mnser.Common.{◌≡◌, ap, sym, ◌∙◌, Bool-cases, inl, inr, subst}
use mnser.Common.Text.{Text}
use mnser.Log.{invalid}
use mnser.Log.Loggers.{Logger, LogState, set_level, clear_appender, get_logger, find_logger}
use mnser.Log.Managed.{Named, get_logger_lem}
use mnser.Log.Configured.{
  Only, Only-trans, set_level-Only, clear_appender-Only, new_pattern-Only, equip_all-Only,
}
use mnser.Log.Config.{LogItem, new_pattern, configure, retire}

pub Only-Named : (l : ℕ) (s t : LogState) → Only l s t → Named s → Named t
Only-Named l s t o v = record {
  made = λ name k h.
      rw o.same_next (v.made name k (subst (λ x. find_logger x name ≡ some k) o.loggers h));
  named = λ name k h.
      same_name k ∙ v.named name k (subst (λ x. find_logger x name ≡ some k) o.loggers h);
}
  where
    same_name : (k : ℕ) → (t.logger k).name ≡ (s.logger k).name
    same_name k = elim (Bool-cases (k == l)) [
      | inl this ↦
          subst (λ j. (t.logger j).name ≡ (s.logger j).name) (sym ((==_iff k l).0 this)) o.name
      | inr other ↦ ap (λ (x : Logger). x.name) (o.others k other)
    ]

-- A name leads to the logger `l`, which is `x`.
pub record Kept (n : Text) (l : ℕ) (x : Logger) (s : LogState) : Type 0 where
  pub all_named : Named s
  pub leads : find_logger s.loggers n ≡ some l
  pub same : s.logger l ≡ x

pub Only-Kept :
    (n : Text) (l : ℕ) (x : Logger) (k : ℕ) (s t : LogState)
    → Only k s t
    → (l == k) ≡ false
    → Kept n l x s
    → Kept n l x t
Only-Kept n l x k s t o other v = record {
  all_named = Only-Named k s t o v.all_named;
  leads = ap (λ es. find_logger es n) o.loggers ∙ v.leads;
  same = o.others l other ∙ v.same;
}

pub get_logger-Kept :
    (n : Text) (l : ℕ) (x : Logger) (s : LogState) (m : Text)
    → m ≢ n
    → Kept n l x s
    → Kept n l x (get_logger s m).0 × ((l == (get_logger s m).1) ≡ false)
get_logger-Kept n l x s m ne v =
    let g = get_logger_lem s m v.all_named in
    let leads : find_logger (get_logger s m).0.loggers n ≡ some l =
      g.others n (λ e. ne (sym e)) ∙ v.leads in
    (
      record {
        all_named = g.all_named;
        leads = leads;
        same = g.kept l (v.all_named.made n l v.leads) ∙ v.same;
      },
      elim (Bool-cases (l == (get_logger s m).1)) [
        | inr other ↦ other
        | inl this ↦ absurd (
            ne (
              sym g.has_name
              ∙ ap (λ k. ((get_logger s m).0.logger k).name)
                  (sym ((==_iff l (get_logger s m).1).0 this))
              ∙ g.all_named.named n l leads))
      ],
    )

pub configured-Only :
    (s : LogState) (it : LogItem)
    → Only (get_logger s it.name).1 (get_logger s it.name).0 (configure s it)
unfolding configure
configured-Only s it =
    let (t, l) = get_logger s it.name in
    let a = set_level t l it.level in
    let b = new_pattern a l it.formatter in
    Only-trans l t b _
      (Only-trans l t a b (set_level-Only t l it.level) (new_pattern-Only a l it.formatter))
      (Only-trans l b (clear_appender b l) _ (clear_appender-Only b l)
        (equip_all-Only (clear_appender b l) l it.appenders))

pub retired-Only :
    (s : LogState) (m : Text) → Only (get_logger s m).1 (get_logger s m).0 (retire s m)
unfolding retire
retired-Only s m =
    let (t, l) = get_logger s m in
    Only-trans l t (set_level t l invalid) _ (set_level-Only t l invalid)
      (clear_appender-Only (set_level t l invalid) l)

pub configure-Kept :
    (n : Text) (l : ℕ) (x : Logger) (s : LogState) (it : LogItem)
    → it.name ≢ n
    → Kept n l x s
    → Kept n l x (configure s it)
configure-Kept n l x s it ne v =
    let (k, other) = get_logger-Kept n l x s it.name ne v in
    Only-Kept n l x (get_logger s it.name).1 _ _ (configured-Only s it) other k

pub retire-Kept :
    (n : Text) (l : ℕ) (x : Logger) (s : LogState) (m : Text)
    → m ≢ n
    → Kept n l x s
    → Kept n l x (retire s m)
retire-Kept n l x s m ne v =
    let (k, other) = get_logger-Kept n l x s m ne v in
    Only-Kept n l x (get_logger s m).1 _ _ (retired-Only s m) other k

pub configure-Named : (s : LogState) (it : LogItem) → Named s → Named (configure s it)
configure-Named s it v =
    Only-Named (get_logger s it.name).1 _ _ (configured-Only s it)
      (get_logger_lem s it.name v).all_named

pub retire-Named : (s : LogState) (m : Text) → Named s → Named (retire s m)
retire-Named s m v =
    Only-Named (get_logger s m).1 _ _ (retired-Only s m) (get_logger_lem s m v).all_named
