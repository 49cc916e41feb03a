-- ===== src/SimpleDb/Exit.antt =====
-- How a call of simpledb ends: it returns, or the process exits on the way.
use my_exercise.Prelude.{◌≡◌, ◌⊎◌, refl, inl, inr}

pub data Exit : Type 0 where
  unable_to_open corrupt_file flush_null_page error_seeking error_writing page_out_of_bounds : Exit
  error_reading child_out_of_range need_internal_split error_closing no_file_name end_of_input :
      Exit
  -- The C code has no such end: a call through a NULL cursor, and a loop that outran its fuel.
  null_cursor out_of_fuel : Exit

pub data Result {ℓ} (A : Type ℓ) : Type ℓ where
  ok : A → Result A
  exits : Exit → Result A

pub Result-cases {ℓ} :
    {A : Type ℓ} (r : Result A) → ((a : A) × (r ≡ ok a)) ⊎ ((e : Exit) × (r ≡ exits e))
Result-cases (ok a) = inl (a, refl)
Result-cases (exits e) = inr (e, refl)
