-- ===== src/Store/Redeeming.antt =====
-- The life of an invite in store/invites.go: it is pending until it is used, revoked or expired, and
-- then it stays as it is.
use mv_chat.Prelude.{
  ℕ, ◌≡◌, ◌≢◌, refl, sym, ap, subst, ◌∙◌, inl, inr, List, [], ◌∷◌, Option, none, some, Bool, true,
  false, ◌||◌, Text, arith, ◌==◌, ==_iff, text_eq, &&-true, Bool-cases, Option-cases, or_else,
  find?, find?-sound, any, update_where, find?-update_where,
}
use mathlib.Core.Option.{some-injective}
use mv_chat.Store.Types.{Database, InviteCode, expired, revoked}
use mv_chat.Store.Invites.{
  is_pending, is_open, taken, has_id, may_revoke, is_overdue, create_invite_code, use_invite,
  revoke_invite, expire_old_invites,
}

-- The statements that change invites.
pub data Operation : Type 0 where
  create : ℕ → ℕ → Text → Text → Text → Option Text → Operation
  take_up : ℕ → ℕ → Operation
  revoke : ℕ → ℕ → Operation
  expire : Operation

-- An operation that fails changes nothing.
abbrev pub after : {A : Type 0} → Database → Option (A × Database) → Database
after db none = db
after db (some (a, db')) = db'

abbrev pub apply : Bool → ℕ → Operation → Database → Database
apply is_sql now (create id inviter code token email name) db =
    after db (create_invite_code id now inviter code token email name db)
apply is_sql now (take_up id user) db = after db (use_invite is_sql now id user db)
apply is_sql now (revoke id inviter) db = or_else (revoke_invite id inviter db) db
apply is_sql now expire db = (expire_old_invites now db).1

-- Operations at their times, in their order.
unfoldable pub run : Bool → List (ℕ × Operation) → Database → Database
run is_sql [] db = db
run is_sql ((now, op) ∷ rest) db = run is_sql rest (apply is_sql now op db)

abbrev pub row : ℕ → Database → Option InviteCode
row id db = find? (has_id id) db.invite_codes

-- A row that an update does not touch.
row-update :
    (id : ℕ) (q : InviteCode → Bool) (f : InviteCode → InviteCode) (rows : List InviteCode)
    (r : InviteCode)
    → ((i : InviteCode) → has_id id (f i) ≡ has_id id i)
    → q r ≡ false
    → find? (has_id id) rows ≡ some r
    → find? (has_id id) (update_where q f rows) ≡ some r
row-update id q f rows r keeps miss found =
    find?-update_where (has_id id) q f rows keeps ∙ rw found (rw miss refl)

-- A row that is there keeps its id from being given to another.
any-of-row :
    (id : ℕ) (code : Text) (rows : List InviteCode) (r : InviteCode)
    → find? (has_id id) rows ≡ some r
    → any (λ i. i.id == id || text_eq i.code code) rows ≡ true
unfolding find? any
any-of-row id code [] r h = cc
any-of-row id code (i ∷ rows) r h = ground (arith, any-of-row id code rows r)

module _ (is_sql : Bool) (now id : ℕ) (db : Database) (r : InviteCode) (there : row id db ≡ some r)
    (settled : is_pending r.status ≡ false) where
  create-final :
      (new inviter : ℕ) (code token email : Text) (name : Option Text)
      → row id (apply is_sql now (create new inviter code token email name) db) ≡ some r
  unfolding create_invite_code find?
  create-final new inviter code token email name =
      let rows = db.invite_codes in
      elim (Bool-cases (any (λ i. i.id == new || text_eq i.code code) rows)) [
        | inl double ↦ rw (double, create_invite_code) there
        | inr fresh ↦ elim (Bool-cases (new == id)) [
          | inl same ↦
              let dup =
                any-of-row new code rows r
                  (subst (λ k. row k db ≡ some r) (sym ((==_iff new id).0 same)) there) in
              absurd (ground (arith, dup, fresh))
          | inr other ↦ rw (fresh, create_invite_code) (rw other there)
        ]
      ]

  use-final : (k user : ℕ) → row id (apply is_sql now (take_up k user) db) ≡ some r
  unfolding use_invite
  use-final k user = elim (Bool-cases (k == id)) [
    | inl same ↦
        let at = subst (λ j. row j db ≡ some r) (sym ((==_iff k id).0 same)) there in
        let closed : is_open now r ≡ false = ground (arith, settled) in
        elim (Bool-cases is_sql) [
          | inl e ↦ rw (at, use_invite) (rw (closed, e) there)
          | inr e ↦ rw (at, use_invite) (rw (closed, e) there)
        ]
    | inr other ↦ elim (Option-cases (find? (has_id k) db.invite_codes)) [
      | inl gone ↦ elim (Bool-cases is_sql) [
        | inl e ↦ rw (gone, use_invite) (rw e there)
        | inr e ↦ rw (gone, use_invite) (rw e there)
      ]
      | inr (i, found) ↦ elim (Bool-cases (is_open now i)) [
        | inl opened ↦
            let mine = find?-sound (has_id id) db.invite_codes r there in
            rw (found, use_invite)
              (rw opened (
                row-update id (has_id k) (taken now user) db.invite_codes r (λ j. refl)
                  (ground (arith, mine, other)) there))
        | inr closed ↦ elim (Bool-cases is_sql) [
          | inl e ↦ rw (found, use_invite) (rw (closed, e) there)
          | inr e ↦ rw (found, use_invite) (rw (closed, e) there)
        ]
      ]
    ]
  ]

  revoke-final : (k inviter : ℕ) → row id (apply is_sql now (revoke k inviter) db) ≡ some r
  unfolding revoke_invite
  revoke-final k inviter = elim (Bool-cases (any (may_revoke k inviter) db.invite_codes)) [
    | inl found ↦
        rw (found, revoke_invite)
          (row-update id (may_revoke k inviter) (λ i. record i { status = revoked }) db.invite_codes
            r (λ j. refl) (ground (arith, settled)) there)
    | inr gone ↦ rw (gone, revoke_invite) there
  ]

  expire-final : row id (apply is_sql now expire db) ≡ some r
  unfolding expire_old_invites
  expire-final =
      row-update id (is_overdue now) (λ i. record i { status = expired }) db.invite_codes r
        (λ i. refl) (ground (arith, settled)) there

run-final :
    (is_sql : Bool) (ops : List (ℕ × Operation)) (id : ℕ) (db : Database) (r : InviteCode)
    → row id db ≡ some r
    → is_pending r.status ≡ false
    → row id (run is_sql ops db) ≡ some r
unfolding run
run-final is_sql [] id db r there settled = there
run-final is_sql ((now, create new inviter code token email name) ∷ rest) id db r there settled =
    run-final is_sql rest id _ r
      (create-final is_sql now id db r there settled new inviter code token email name) settled
run-final is_sql ((now, take_up k user) ∷ rest) id db r there settled =
    run-final is_sql rest id _ r (use-final is_sql now id db r there settled k user) settled
run-final is_sql ((now, revoke k inviter) ∷ rest) id db r there settled =
    run-final is_sql rest id _ r (revoke-final is_sql now id db r there settled k inviter) settled
run-final is_sql ((now, expire) ∷ rest) id db r there settled =
    run-final is_sql rest id _ r (expire-final is_sql now id db r there settled) settled

pub use_invite-open :
    (is_sql : Bool) (now id user : ℕ) (db : Database) (i : InviteCode)
    → row id db ≡ some i
    → is_open now i ≡ true
    → use_invite is_sql now id user db
      ≡ some (
        some (taken now user i),
        record db { invite_codes = update_where (has_id id) (taken now user) db.invite_codes },
      )
unfolding use_invite
use_invite-open is_sql now id user db i found opened = rw (found, use_invite) (rw opened refl)

-- A use that succeeds finds the row of the id open, and leaves it used.
pub use_invite_sound :
    (is_sql : Bool) (now id user : ℕ) (db db' : Database) (x : InviteCode)
    → use_invite is_sql now id user db ≡ some (some x, db')
    → (i : InviteCode) × (row id db ≡ some i)
      × (is_open now i ≡ true)
      × (x ≡ taken now user i)
      × (row id db' ≡ some x)
unfolding use_invite
use_invite_sound is_sql now id user db db' x h = elim (Option-cases (row id db)) [
  | inl gone ↦ absurd (ground (arith, gone))
  | inr (i, found) ↦ elim (Bool-cases (is_open now i)) [
    | inr closed ↦ absurd (ground (arith, found, closed))
    | inl opened ↦
        let eq = sym (use_invite-open is_sql now id user db i found opened) ∙ h in
        let db'' : Database = record db {
          invite_codes = update_where (has_id id) (taken now user) db.invite_codes;
        } in
        let mine = find?-sound (has_id id) db.invite_codes i found in
        let after_use : row id db'' ≡ some (taken now user i) =
          find?-update_where (has_id id) (has_id id) (taken now user) db.invite_codes (λ j. refl)
          ∙ rw found (rw mine refl) in
        let same : taken now user i ≡ x = cc in
        let db_is : db'' ≡ db' = cc in
        (i, found, opened, sym same, ap (row id) (sym db_is) ∙ after_use ∙ ap some same)
  ]
]

-- What an invite's use means: where using an invite succeeds, it was pending and had not expired, and
-- it becomes used by the user; and whatever is then created, used, revoked and expired, at whatever
-- times, it stays as that use left it, and no further use of it by anybody succeeds.
pub use_invite_once :
    (is_sql : Bool) (now id user : ℕ) (db db' : Database) (x : InviteCode)
    → use_invite is_sql now id user db ≡ some (some x, db')
    → (i : InviteCode) × (row id db ≡ some i)
      × (is_open now i ≡ true)
      × (x ≡ taken now user i)
      × ((ops : List (ℕ × Operation)) (now' user' : ℕ) (y : InviteCode) (db'' : Database)
          → (row id (run is_sql ops db') ≡ some x)
            × (use_invite is_sql now' id user' (run is_sql ops db') ≢ some (some y, db'')))
use_invite_once is_sql now id user db db' x h =
    let s = use_invite_sound is_sql now id user db db' x h in
    let settled : is_pending x.status ≡ false = ap (λ (j : InviteCode). is_pending j.status) s.3 in
    (
      s.0,
      s.1,
      s.2,
      s.3,
      λ ops now' user' y db''.
          let stays = run-final is_sql ops id db' x s.4 settled in
          (
            stays,
            λ again.
                let t = use_invite_sound is_sql now' id user' (run is_sql ops db') db'' y again in
                let same : x ≡ t.0 = some-injective x t.0 (sym stays ∙ t.1) in
                let pending' : is_pending x.status ≡ true =
                  ap (λ (j : InviteCode). is_pending j.status) same
                  ∙ (&&-true (is_pending t.0.status) _ t.2).0 in
                cc,
          ),
    )
