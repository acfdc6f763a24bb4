-- ===== src/Json.antt =====
-- The JSON values that a job's payload holds (a Python `dict` from the request body), and Python's
-- truth value of them. A number is its sign, its digits and the count of its decimals.
use ai_calling_agent.Prelude.{
  ℕ, String, Bool, true, false, not, Option, none, some, ◌==◌, eqb, if◌then◌else◌,
}

mutual
  pub data Json : Type 0 where
    null : Json
    boolean : Bool → Json
    number : Bool → ℕ → ℕ → Json
    text : String → Json
    array : Items → Json
    object : Fields → Json

  pub data Items : Type 0 where
    nil : Items
    cons : Json → Items → Items

  pub data Fields : Type 0 where
    end : Fields
    field : String → Json → Fields → Fields

-- d.get(k)
unfoldable pub get_field : String → Fields → Option Json
get_field k end = none
get_field k (field j v fs) = if j == k then some v else get_field k fs

-- bool(v)
unfoldable pub truthy : Json → Bool
truthy null = false
truthy (boolean b) = b
truthy (number sign digits decimals) = not (eqb digits 0)
truthy (text s) = not (s == "")
truthy (array nil) = false
truthy (array (cons x xs)) = true
truthy (object end) = false
truthy (object (field k v fs)) = true
