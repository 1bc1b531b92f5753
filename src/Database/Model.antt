-- ===== src/Database/Model.antt =====
-- pkg/database/model.go: the base model and its hooks. Times are numbers of nanoseconds, and `none` is
-- the zero time; the clock is an argument.
use dgou_framework.Base.{ℕ, ◌≡◌, ◌≢◌, refl, Bool, true, Option, none, some, if◌then◌else◌, arith}
use dgou_framework.Base.Int.{ℤ}

-- `gorm.DeletedAt`
pub record DeletedAt : Type 0 where
  pub time : Option ℤ
  pub valid : Bool

pub record BaseModel : Type 0 where
  pub id : ℕ
  pub created_at : Option ℤ
  pub updated_at : Option ℤ
  pub deleted_at : DeletedAt

pub record AuditModel : Type 0 where
  pub base_model : BaseModel
  pub created_by : ℕ
  pub updated_by : ℕ

abbrev or_now : ℤ → Option ℤ → Option ℤ
or_now now none = some now
or_now now (some t) = some t

unfoldable pub before_create : ℤ → BaseModel → BaseModel
before_create now m = record m {
  created_at = or_now now m.created_at;
  updated_at = or_now now m.updated_at;
}

unfoldable pub before_update : ℤ → BaseModel → BaseModel
before_update now m = record m { updated_at = some now }

-- `unscoped` says that the statement deletes the row.
unfoldable pub before_delete : ℤ → (unscoped : Bool) → BaseModel → BaseModel
before_delete now unscoped m =
    if unscoped then m else record m { deleted_at = record { time = some now; valid = true } }

or_now_some : (now : ℤ) (o : Option ℤ) → or_now now o ≢ none
or_now_some now none e = cc
or_now_some now (some t) e = cc

or_now_keep : (now later : ℤ) (o : Option ℤ) → or_now later (or_now now o) ≡ or_now now o
or_now_keep now later none = refl
or_now_keep now later (some t) = refl

-- A model that has been created has both times, whatever it had before, and keeps them when it is
-- created again; a later update changes the second only, and a soft delete neither.
pub before_create-times :
    (m : BaseModel) (now later : ℤ) (unscoped : Bool)
    → let c = before_create now m in
      (c.created_at ≢ none)
      × (c.updated_at ≢ none)
      × (before_create later c ≡ c)
      × ((before_update later c).created_at ≡ c.created_at)
      × ((before_delete later unscoped c).updated_at ≡ c.updated_at)
unfolding before_create before_update before_delete
before_create-times m now later unscoped = (
  or_now_some now m.created_at,
  or_now_some now m.updated_at,
  λ i. record (before_create now m) {
    created_at = or_now_keep now later m.created_at i;
    updated_at = or_now_keep now later m.updated_at i;
  },
  refl,
  ground arith,
)
