-- ===== src/Store/Chats/Ordered.antt =====
-- The order in which the chats of an account are listed.
use mathlib.Core.Path.{subst}
use wsapi_app.Common.{
  ◌≡◌, true, false, String, List, [], ◌∷◌, ltb, All, Bool-cases, inl, inr, ok, arith,
}
use wsapi_app.Common.Dict.{Dict}
use wsapi_app.Store.Chats.{ChatRecord, ChatRow, ChatTable, chats_of, scan}
use wsapi_app.Store.Chats.Listing.{is_before, insert_row, by_activity, scan_all, list}

-- No later row comes before an earlier one.
abbrev IsOrdered : Dict ChatRow → Type 0
IsOrdered [] = Unit
IsOrdered (entry ∷ rest) = All (λ later. is_before later.1 entry.1 ≡ false) rest × IsOrdered rest

-- No later record has a later activity.
abbrev pub IsLatestFirst : List ChatRecord → Type 0
IsLatestFirst [] = Unit
IsLatestFirst (rec ∷ recs) =
    All (λ later. ltb rec.last_activity later.last_activity ≡ false) recs × IsLatestFirst recs

is_before-asymmetric : (a b : ChatRow) → is_before a b ≡ true → is_before b a ≡ false
unfolding is_before
is_before-asymmetric a b h = ground arith

is_before-negative :
    (a b c : ChatRow) → is_before b a ≡ false → is_before c b ≡ false → is_before c a ≡ false
unfolding is_before
is_before-negative a b c h k = ground arith

All-insert_row :
    (P : String × ChatRow → Type 0) (entry : String × ChatRow) (entries : Dict ChatRow)
    → P entry
    → All P entries
    → All P (insert_row entry entries)
unfolding insert_row
All-insert_row P entry [] p ps = (p, tt)
All-insert_row P entry (other ∷ rest) p (q, qs) = elim (Bool-cases (is_before other.1 entry.1)) [
  | inl e ↦ rw e (q, All-insert_row P entry rest p qs)
  | inr e ↦ rw e (p, (q, qs))
]

All-map {ℓ} :
    {A : Type ℓ} (P Q : A → Type 0) → ((x : A) → P x → Q x) → (xs : List A) → All P xs → All Q xs
All-map P Q f [] ps = tt
All-map P Q f (x ∷ xs) (p, ps) = (f x p, All-map P Q f xs ps)

insert_row-IsOrdered :
    (entry : String × ChatRow) (entries : Dict ChatRow)
    → IsOrdered entries
    → IsOrdered (insert_row entry entries)
unfolding insert_row
insert_row-IsOrdered entry [] o = (tt, tt)
insert_row-IsOrdered entry (other ∷ rest) (q, o) = elim (Bool-cases (is_before other.1 entry.1)) [
  | inl e ↦ rw e (
    All-insert_row _ entry rest (is_before-asymmetric other.1 entry.1 e) q,
    insert_row-IsOrdered entry rest o,
  )
  | inr e ↦
      rw e ((e, All-map _ _ (λ x n. is_before-negative entry.1 other.1 x.1 e n) rest q), (q, o))
]

by_activity-IsOrdered : (entries : Dict ChatRow) → IsOrdered (by_activity entries)
unfolding by_activity
by_activity-IsOrdered [] = tt
by_activity-IsOrdered (entry ∷ rest) =
    insert_row-IsOrdered entry (by_activity rest) (by_activity-IsOrdered rest)

scan-latest :
    (our chat chat' : String) (a b : ChatRow)
    → is_before b a ≡ false
    → ltb (scan our chat a).last_activity (scan our chat' b).last_activity ≡ false
unfolding scan is_before
scan-latest our chat chat' a b h = ground arith

All-scan_all :
    (our chat : String) (row : ChatRow) (entries : Dict ChatRow)
    → All (λ later. is_before later.1 row ≡ false) entries
    → All
        (λ later. ltb (scan our chat row).last_activity later.last_activity ≡ false)
        (scan_all our entries)
unfolding scan_all
All-scan_all our chat row [] ps = tt
All-scan_all our chat row ((chat', r) ∷ rest) (p, ps) =
    (scan-latest our chat chat' row r p, All-scan_all our chat row rest ps)

scan_all-IsLatestFirst :
    (our : String) (entries : Dict ChatRow)
    → IsOrdered entries
    → IsLatestFirst (scan_all our entries)
unfolding scan_all
scan_all-IsLatestFirst our [] o = tt
scan_all-IsLatestFirst our ((chat, row) ∷ rest) (p, o) =
    (All-scan_all our chat row rest p, scan_all-IsLatestFirst our rest o)

-- The records that are listed are in the order of their last activity, the latest first, and those
-- without activity last.
pub listed-IsLatestFirst :
    (our : String) (rows : ChatTable) (recs : List ChatRecord)
    → list true our rows ≡ ok recs
    → IsLatestFirst recs
unfolding list
listed-IsLatestFirst our rows recs h =
    let same : scan_all our (by_activity (chats_of our rows)) ≡ recs = cc in
    subst IsLatestFirst same
      (scan_all-IsLatestFirst our _ (by_activity-IsOrdered (chats_of our rows)))
