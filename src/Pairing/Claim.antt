-- ===== src/Pairing/Claim.antt =====
-- A pairing token pairs one device at most, however the clients interleave.
use soulmate.Prelude.{
  ℕ, String, ◌≡◌, ◌≢◌, refl, false, List, [], ◌∷◌, ◌++◌, arith, eq_iff, any, All, All-map,
  All-append, All-delete_where, update_where, set_where, inl, inr, Bool-cases, leb,
}
use soulmate.Exec.{err}
use soulmate.Pairing.Records.{PairingToken, PairedDevice}
use soulmate.Pairing.Service.{
  Store, token_used, consume, claimable, claimed, delete_expired, redeem, add_device,
  device_conflict,
}

-- The atomic transactions that touch the tokens, where no new token takes the given id.
pub data Step (token_id : String) : Store → Store → Type 0 where
  purge : (s : Store) (before : ℕ) → Step token_id s (delete_expired before s).1
  issue :
      (s : Store) (t : PairingToken)
      → t.id ≢ token_id
      → Step token_id s (record s { tokens = s.tokens ++ t ∷ [] })
  claim :
      (s : Store) (id device_id : String) (at : ℕ) → Step token_id s (consume id device_id at s).1
  devices : (s : Store) (ds : List PairedDevice) → Step token_id s (record s { devices = ds })

pub data Reach (token_id : String) (s : Store) : Store → Type 0 where
  here : Reach token_id s s
  next : {t u : Store} → Reach token_id s t → Step token_id t u → Reach token_id s u

-- No row with this id is left to be claimed.
abbrev Spent : String → PairingToken → Type 0
Spent token_id t = claimable token_id t ≡ false

claimed-Spent :
    (token_id id device_id : String) (at : ℕ) (t : PairingToken)
    → Spent token_id t
    → Spent token_id (set_where (claimable id) (claimed device_id at) t)
claimed-Spent token_id id device_id at t h = elim (Bool-cases (claimable id t)) [
  | inl on ↦ rw on (ground arith)
  | inr off ↦ rw off h
]

claim-Spent :
    (token_id device_id : String) (at : ℕ) (t : PairingToken)
    → Spent token_id (set_where (claimable token_id) (claimed device_id at) t)
claim-Spent token_id device_id at t = elim (Bool-cases (claimable token_id t)) [
  | inl on ↦ rw on (ground arith)
  | inr off ↦ rw off off
]

All-set :
    (token_id device_id : String) (at : ℕ) (ts : List PairingToken)
    → All (Spent token_id) (update_where (claimable token_id) (claimed device_id at) ts)
unfolding update_where
All-set token_id device_id at [] = tt
All-set token_id device_id at (t ∷ ts) =
    (claim-Spent token_id device_id at t, All-set token_id device_id at ts)

foreign-Spent : (token_id : String) (t : PairingToken) → t.id ≢ token_id → Spent token_id t
foreign-Spent token_id t other = ground (arith, eq_iff t.id token_id)

Step-Spent :
    {token_id : String} {s t : Store}
    → Step token_id s t
    → All (Spent token_id) s.tokens
    → All (Spent token_id) t.tokens
unfolding delete_expired consume update_where
Step-Spent {token_id} (purge s before) h =
    All-delete_where (Spent token_id) (λ t. leb t.expires_at before) s.tokens h
Step-Spent {token_id} (issue s t other) h =
    All-append (Spent token_id) s.tokens (t ∷ []) h (foreign-Spent token_id t other, tt)
Step-Spent {token_id} (claim s id device_id at) h =
    All-map (Spent token_id) (set_where (claimable id) (claimed device_id at))
      (claimed-Spent token_id id device_id at) s.tokens h
Step-Spent (devices s ds) h = h

Reach-Spent :
    {token_id : String} {s t : Store}
    → Reach token_id s t
    → All (Spent token_id) s.tokens
    → All (Spent token_id) t.tokens
Reach-Spent here h = h
Reach-Spent (next r st) h = Step-Spent st (Reach-Spent r h)

any-Spent :
    (token_id : String) (ts : List PairingToken)
    → All (Spent token_id) ts
    → any (claimable token_id) ts ≡ false
any-Spent token_id [] h = refl
any-Spent token_id (t ∷ ts) h = rw (h.0, any-Spent token_id ts h.1)

redeem-Spent :
    (token_id : String) (d : PairedDevice) (device_secret : String) (now : ℕ) (s : Store)
    → All (Spent token_id) (redeem token_id d device_secret now s).1.tokens
unfolding redeem consume add_device
redeem-Spent token_id d device_secret now s =
    elim (Bool-cases (any (claimable token_id) s.tokens)) [
      | inr lost ↦ rw lost (All-set token_id d.id now s.tokens)
      | inl won ↦ elim (Bool-cases (any (device_conflict d) s.devices)) [
        | inl clash ↦ rw (won, clash) (All-set token_id d.id now s.tokens)
        | inr fresh ↦ rw (won, fresh) (All-set token_id d.id now s.tokens)
      ]
    ]

-- Once a client has tried to claim a token, every later claim of it is refused as used, whatever
-- other clients do in between, unless a new token is issued under the same id.
pub redeem_once :
    (token_id : String) (d d' : PairedDevice) (secret secret' : String) (now now' : ℕ) (s t : Store)
    → Reach token_id (redeem token_id d secret now s).1 t
    → (redeem token_id d' secret' now' t).0 ≡ err token_used
unfolding redeem consume
redeem_once token_id d d' secret secret' now now' s t later =
    rw (any-Spent token_id t.tokens (Reach-Spent later (redeem-Spent token_id d secret now s)))
