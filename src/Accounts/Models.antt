-- ===== src/Accounts/Models.antt =====
-- The rows of services/api/src/models.py that the admin and the client API read and write. A column that
-- may be NULL is an Option; a status or role is the text of the column.
use ai_calling_agent.Prelude.{
  ℕ, String, Bool, false, Option, none, some, List, ◌==◌, eqb, ◌≡◌, refl, ◌⊎◌, inl, inr,
}
use ai_calling_agent.Models.{ConnectionStatus}

-- An integer column, which may be negative.
pub data Integer : Type 0 where
  pos negsuc : ℕ → Integer

pub record Client : Type 0 where
  pub id : ℕ
  pub name : String
  pub slug : Option String
  pub plan : Option String
  pub status : Option String
  pub contact_email : Option String
  pub contact_phone : Option String
  pub api_limit : Option Integer
  pub max_concurrent_calls : Option Integer
  pub created_at : ℕ
  pub updated_at : ℕ
  pub country : Option String
  pub timezone : Option String
  pub currency : Option String
  pub default_language : Option String
  pub phone_country_code : Option String

pub record User : Type 0 where
  pub id : String
  pub email : String
  pub full_name : String
  pub password_hash : Option String
  pub role : Option String
  pub tenant_id : Option ℕ
  pub status : Option String
  pub created_at : ℕ

pub record Customer : Type 0 where
  pub id : String
  pub client_id : ℕ
  pub name : Option String
  pub phone : String
  pub email : Option String
  pub language_code : Option String
  pub timezone : Option String
  pub country_code : Option String
  pub notes : Option String
  pub external_id : Option String
  pub created_at : ℕ
  pub updated_at : ℕ

-- call_requests.status
pub data CallRequestStatus : Type 0 where
  pending queued dialing ringing connected in_progress : CallRequestStatus
  completed failed cancelled no_answer voicemail : CallRequestStatus

-- call_requests.call_type
pub data CallType : Type 0 where
  inbound outbound : CallType

pub record Caller : Type 0 where
  pub id : ℕ
  pub customer_name : Option String
  pub phone_number : Option String
  pub hotel_name : Option String
  pub check_in_date : Option String
  pub check_out_date : Option String
  pub client_id : Option ℕ
  pub created_at : ℕ
  pub status : CallRequestStatus
  pub call_type : CallType
  pub is_simulation : Bool
  pub customer_id : Option String
  pub telephony_call_id : Option String
  pub connection_status : ConnectionStatus
  pub failure_reason : Option String
  pub duration_seconds : Option ℕ
  pub recording_url : Option String
  pub notes : Option String
  pub outcome : Option String

-- What an audit row says of a client or a user before or after an action: the fields that the
-- snapshots of services/api/src/routers/admin.py select.
pub record ClientSnapshot : Type 0 where
  pub id : ℕ
  pub name : String
  pub slug : Option String
  pub plan : Option String
  pub status : Option String
  pub contact_email : Option String
  pub contact_phone : Option String
  pub api_limit : Option Integer
  pub max_concurrent_calls : Option Integer

pub record UserSnapshot : Type 0 where
  pub user_id : String
  pub email : String
  pub full_name : String
  pub role : Option String
  pub tenant_id : Option ℕ
  pub status : Option String

pub data Snapshot : Type 0 where
  of_client : ClientSnapshot → Snapshot
  of_user : UserSnapshot → Snapshot

-- The tenant of an audit row is the number whose text the column holds.
pub record AuditLog : Type 0 where
  pub audit_id : String
  pub tenant_id : Option ℕ
  pub user_id : Option String
  pub action : String
  pub before_value : Option Snapshot
  pub after_value : Option Snapshot
  pub occurred_at : ℕ

pub record Accounts : Type 0 where
  pub clients : List Client
  pub users : List User
  pub customers : List Customer
  pub callers : List Caller
  pub audit_logs : List AuditLog

-- The answer of a handler: a result, or the status code and the detail of an error. An exception that
-- leaves the handler is a 500.
pub data Reply {ℓ} (A : Type ℓ) : Type ℓ where
  ok : A → Reply A
  raised : ℕ → String → Reply A

-- column = value, which is not true of NULL
unfoldable pub text_is : Option String → String → Bool
text_is none s = false
text_is (some t) s = t == s

unfoldable pub number_is : Option ℕ → ℕ → Bool
number_is none n = false
number_is (some m) n = eqb m n

-- A handler behind its guard, which hands it what the token says.
unfoldable pub guarded {ℓ κ} : {G : Type κ} {A : Type ℓ} → Reply G → (G → Reply A) → Reply A
guarded (ok g) handler = handler g
guarded (raised code detail) handler = raised code detail

-- The same for a handler that writes: a refused request leaves the state as it is.
unfoldable pub guarded_write {ℓ κ ι} :
    {G : Type ι} {A : Type ℓ} {S : Type κ} → Reply G → S → (G → Reply A × S) → Reply A × S
guarded_write (ok g) s handler = handler g
guarded_write (raised code detail) s handler = (raised code detail, s)

pub Reply-cases {ℓ} :
    {A : Type ℓ} (r : Reply A)
    → ((a : A) × (r ≡ ok a)) ⊎ ((code : ℕ) × (detail : String) × (r ≡ raised code detail))
Reply-cases (ok a) = inl (a, refl)
Reply-cases (raised code detail) = inr (code, detail, refl)

module _ {ℓ κ} {G : Type ℓ} {A : Type κ} where
  pub guarded_write-keep {ι μ} :
      {S : Type ι} (P : S → Type μ) (guard : Reply G) (s : S) (handler : G → Reply A × S)
      → P s
      → ((g : G) → guard ≡ ok g → P (handler g).1)
      → P (guarded_write guard s handler).1
  unfolding guarded_write
  guarded_write-keep P (ok g) s handler h keep = keep g refl
  guarded_write-keep P (raised code detail) s handler h keep = h

  pub guarded_write-inv {ι} :
      {S : Type ι} (guard : Reply G) (s : S) (handler : G → Reply A × S) (a : A) (t : S)
      → guarded_write guard s handler ≡ (ok a, t)
      → (g : G) × (guard ≡ ok g) × (handler g ≡ (ok a, t))
  unfolding guarded_write
  guarded_write-inv (ok g) s handler a t h = (g, refl, h)
  guarded_write-inv (raised code detail) s handler a t h = cc

  pub guarded_write-ok {ι} :
      {S : Type ι} (guard : Reply G) (s : S) (handler : G → Reply A × S) (g : G)
      → guard ≡ ok g
      → guarded_write guard s handler ≡ handler g
  unfolding guarded_write
  guarded_write-ok guard s handler g e = rw e refl
