-- ===== src/Daemon/Announced.antt =====
-- The removals that daemon/reaper.py announces, among the messages for the broadcaster.
use silicon_office.Prelude.{
  String, ◌==◌, ◌≡◌, refl, Bool, true, false, ◌||◌, List, [], ◌∷◌, ◌++◌, contains, arith,
}
use silicon_office.Schema.{Message, snapshot, diff, remove, make_diff_message}
use silicon_office.Daemon.{announce_removed}

module _ {T : Type 0} where
  -- Whether the removal of a session is among the messages.
  unfoldable pub announces : String → List (Message T) → Bool
  announces sid [] = false
  announces sid (diff _ _ s remove _ ∷ ms) = sid == s || announces sid ms
  announces sid (_ ∷ ms) = announces sid ms

  pub announces-announce_removed :
      (k : String) (sids : List String) (ts : T)
      → announces k (announce_removed sids ts) ≡ contains sids k
  unfolding announces announce_removed make_diff_message
  announces-announce_removed k [] ts = refl
  announces-announce_removed k (sid ∷ sids) ts =
      ground (arith, announces-announce_removed k sids ts)

  pub announces-append :
      (k : String) (xs ys : List (Message T))
      → announces k xs ≡ true
      → announces k (xs ++ ys) ≡ true
  unfolding announces
  announces-append k [] ys h = cc
  announces-append k (snapshot _ _ _ ∷ xs) ys h = announces-append k xs ys h
  announces-append k (diff v t s op a ∷ xs) ys h = ground (arith, announces-append k xs ys)

  pub later-announces :
      (k : String) (xs ys : List (Message T))
      → announces k ys ≡ true
      → announces k (xs ++ ys) ≡ true
  unfolding announces
  later-announces k [] ys h = h
  later-announces k (snapshot _ _ _ ∷ xs) ys h = later-announces k xs ys h
  later-announces k (diff v t s op a ∷ xs) ys h = ground (arith, later-announces k xs ys)
