-- ===== src/Deps/Mio.antt =====
-- The interests and the registry of the `mio` crate, as far as the loop uses them. `Interest` has the
-- three values that READABLE, WRITABLE and `|` make; the operators are an interface with what the
-- crate documents. A call on the registry is recorded, with the token that it is about.
use tokioloop.Base.{ℕ, ◌≡◌, Bool, true, false, ◌&&◌, ◌||◌, not, Option, none, some}

pub data Interest : Type 0 where
  readable writable both : Interest

abbrev pub is_readable : Interest → Bool
is_readable readable = true
is_readable writable = false
is_readable both = true

abbrev pub is_writable : Interest → Bool
is_writable readable = false
is_writable writable = true
is_writable both = true

-- The derived `==`.
abbrev pub same_interest : Interest → Interest → Bool
same_interest readable readable = true
same_interest writable writable = true
same_interest both both = true
same_interest _ _ = false

-- An absent interest has no direction.
abbrev pub reads : Option Interest → Bool
reads none = false
reads (some i) = is_readable i

abbrev pub writes : Option Interest → Bool
writes none = false
writes (some i) = is_writable i

-- `Interest::add` (`|`) and `Interest::remove`, which answers `None` when nothing is left.
pub record Mio : Type 0 where
  pub union : Interest → Interest → Interest
  pub subtract : Interest → Interest → Option Interest
  pub readable-union : (a b : Interest) → is_readable (union a b) ≡ (is_readable a || is_readable b)
  pub writable-union : (a b : Interest) → is_writable (union a b) ≡ (is_writable a || is_writable b)
  pub readable-subtract :
      (a b : Interest) → reads (subtract a b) ≡ (is_readable a && not (is_readable b))
  pub writable-subtract :
      (a b : Interest) → writes (subtract a b) ≡ (is_writable a && not (is_writable b))

-- The calls on `Poll::registry()`.
pub data RegistryCall : Type 0 where
  register : ℕ → Interest → RegistryCall
  reregister : ℕ → Interest → RegistryCall
  deregister : ℕ → RegistryCall
