-- ===== src/Log/Listened.antt =====
-- The listener of the configuration: the loggers that have an item in both sets, and those whose item
-- was left out.
use mnser.Common.{ℕ, List, [], ◌∷◌, Bool, true, false, none, some, if◌then◌else◌, ◌≢◌}
use mnser.Common.{◌≡◌, refl, ap, ◌∙◌, arith, Bool-cases, inl, inr, subst}
use mnser.Common.Text.{Text, eq_text, eq_text_iff}
use mnser.Log.{invalid}
use mnser.Log.Loggers.{Logger, LogState, set_level, clear_appender, get_logger, find_logger}
use mnser.Log.Managed.{Named, get_logger_lem}
use mnser.Log.Retained.{Kept, configure-Kept, retire-Kept, configure-Named, retire-Named}
use mnser.Log.Config.{
  LogItem, find_item, configure, is_same, configure_all, retire, is_found, retire_all, on_change,
}

differ : (m n : Text) → eq_text m n ≡ false → m ≢ n
differ m n h e = cc ((eq_text_iff m n).1 e)

-- A name leads to a logger that logs nothing.
pub record Retired (n : Text) (s : LogState) : Type 0 where
  pub all_named : Named s
  pub l : ℕ
  pub leads : find_logger s.loggers n ≡ some l
  pub off : (s.logger l).level ≡ invalid
  pub no_appenders : (s.logger l).appenders ≡ []

silenced :
    (t : LogState) (l : ℕ)
    → let u = clear_appender (set_level t l invalid) l in
      ((u.logger l).level ≡ invalid) × ((u.logger l).appenders ≡ [])
unfolding clear_appender set_level
silenced t l = (ground arith, ground arith)

retire-Retired_self : (s : LogState) (m : Text) → Named s → Retired m (retire s m)
unfolding retire set_level clear_appender
retire-Retired_self s m v =
    let g = get_logger_lem s m v in
    record {
      all_named = retire-Named s m v;
      l = (get_logger s m).1;
      leads = g.leads;
      off = (silenced (get_logger s m).0 (get_logger s m).1).0;
      no_appenders = (silenced (get_logger s m).0 (get_logger s m).1).1;
    }

retire-Retired : (n : Text) (s : LogState) (m : Text) → Retired n s → Retired n (retire s m)
retire-Retired n s m v = elim (Bool-cases (eq_text m n)) [
  | inl this ↦
      subst (λ k. Retired k (retire s m)) ((eq_text_iff m n).0 this)
        (retire-Retired_self s m v.all_named)
  | inr other ↦
      let k =
        retire-Kept n v.l (s.logger v.l) s m (differ m n other)
          (record { all_named = v.all_named; leads = v.leads; same = refl }) in
      record {
        all_named = k.all_named;
        l = v.l;
        leads = k.leads;
        off = ap (λ (x : Logger). x.level) k.same ∙ v.off;
        no_appenders = ap (λ (x : Logger). x.appenders) k.same ∙ v.no_appenders;
      }
]

-- Through the loops.
configure_all-Named :
    (s : LogState) (old items : List LogItem) → Named s → Named (configure_all s old items)
unfolding configure_all
configure_all-Named s old [] v = v
configure_all-Named s old (it ∷ items) v =
    configure_all-Named (if is_same (find_item old it.name) it then s else configure s it) old items
      (one (is_same (find_item old it.name) it))
  where
    one : (b : Bool) → Named (if b then s else configure s it)
    one true = v
    one false = configure-Named s it v

configure_all-Kept :
    (n : Text) (l : ℕ) (x : Logger) (s : LogState) (old items : List LogItem)
    → find_item items n ≡ none
    → Kept n l x s
    → Kept n l x (configure_all s old items)
unfolding configure_all find_item
configure_all-Kept n l x s old [] h v = v
configure_all-Kept n l x s old (it ∷ items) h v = elim (Bool-cases (eq_text it.name n)) [
  | inl this ↦ absurd (ground arith)
  | inr other ↦
      configure_all-Kept n l x (if is_same (find_item old it.name) it then s else configure s it)
        old items (ground arith) (one (differ it.name n other) (is_same (find_item old it.name) it))
]
  where
    one : it.name ≢ n → (b : Bool) → Kept n l x (if b then s else configure s it)
    one ne true = v
    one ne false = configure-Kept n l x s it ne v

retire_all-Kept :
    (n : Text) (l : ℕ) (x : Logger) (s : LogState) (items new : List LogItem)
    → find_item new n ≡ none
    → Kept n l x s
    → Kept n l x (retire_all s items new)
unfolding retire_all
retire_all-Kept n l x s [] new h v = v
retire_all-Kept n l x s (it ∷ items) new h v =
    elim (Bool-cases (is_found (find_item new it.name))) [
      | inr gone ↦
          retire_all-Kept n l x (if is_found (find_item new it.name) then retire s it.name else s)
            items new h (rw gone v)
      | inl there ↦
          retire_all-Kept n l x (if is_found (find_item new it.name) then retire s it.name else s)
            items new h
            (rw there (
              retire-Kept n l x s it.name
                (λ e. cc (there, ap (λ m. is_found (find_item new m)) e, ap is_found h)) v))
    ]

retire_all-Retired :
    (n : Text) (s : LogState) (items new : List LogItem)
    → Retired n s
    → Retired n (retire_all s items new)
unfolding retire_all
retire_all-Retired n s [] new v = v
retire_all-Retired n s (it ∷ items) new v =
    retire_all-Retired n (if is_found (find_item new it.name) then retire s it.name else s) items
      new (one (is_found (find_item new it.name)))
  where
    one : (b : Bool) → Retired n (if b then retire s it.name else s)
    one true = retire-Retired n s it.name v
    one false = v

retire_all_found :
    (n : Text) (s : LogState) (items new : List LogItem)
    → is_found (find_item items n) ≡ true
    → is_found (find_item new n) ≡ true
    → Named s
    → Retired n (retire_all s items new)
unfolding retire_all find_item
retire_all_found n s [] new h k v = absurd (cc)
retire_all_found n s (it ∷ items) new h k v = elim (Bool-cases (eq_text it.name n)) [
  | inl this ↦
      let same : it.name ≡ n = (eq_text_iff it.name n).0 this in
      let there : is_found (find_item new it.name) ≡ true =
        ap (λ m. is_found (find_item new m)) same ∙ k in
      retire_all-Retired n (if is_found (find_item new it.name) then retire s it.name else s) items
        new
        (rw there
          (subst (λ m. Retired m (retire s it.name)) same (retire-Retired_self s it.name v)))
  | inr other ↦
      retire_all_found n (if is_found (find_item new it.name) then retire s it.name else s) items
        new (ground arith) k (one (is_found (find_item new it.name)))
]
  where
    one : (b : Bool) → Named (if b then retire s it.name else s)
    one true = retire-Named s it.name v
    one false = v

-- After a change of the configuration, the logger of every name that has an item both before and
-- after it has the level INVALID and no appenders, and the logger of a name that has no item any more
-- is as it was. The condition is that each name led to a logger that was made and has that name.
pub on_change_lem :
    (s : LogState) (old new : List LogItem)
    → Named s
    → ((n : Text)
        → is_found (find_item old n) ≡ true
        → is_found (find_item new n) ≡ true
        → Retired n (on_change s old new))
      × ((n : Text) (l : ℕ)
          → find_logger s.loggers n ≡ some l
          → find_item new n ≡ none
          → (on_change s old new).logger l ≡ s.logger l)
unfolding on_change
on_change_lem s old new v = (
  λ n before after.
      retire_all_found n (configure_all s old new) old new before after
        (configure_all-Named s old new v),
  λ n l leads gone.
      (retire_all-Kept n l (s.logger l) (configure_all s old new) old new gone (
        configure_all-Kept n l (s.logger l) s old new gone
          (record { all_named = v; leads = leads; same = refl }))).same,
)
