-- ===== src/Codes/Examples.antt =====
-- A pool of six addresses with two codes: runs of the transactions, and the theorems at them.
use go_port_forward.Base.{
  ℕ, ◌≡◌, ◌≤◌, ◌<◌, refl, true, false, List, [], ◌∷◌, Option, none, some, arith,
}
use go_port_forward.Base.Keys.{nat_eq, lookup, insert, remove}
use go_port_forward.Base.Outcome.{failed, done}
use go_port_forward.Codes.{
  CodeError, err_tun_pool_full, err_device_mismatch, AccessCode, Prefix, masked, last_addr, elem,
  first_unused, alloc_tun_ip,
}
use go_port_forward.Codes.Alloc.{is_free, alloc_tun_ip-least}
use go_port_forward.Codes.Bucket.{
  Bucket, used_ips, count_codes, place_code, create_access_code, save_access_code, get_access_code,
  bind_device, stamped, bound,
}
use go_port_forward.Codes.Placed.{IsPlaced}
use go_port_forward.Codes.History.{creates, binds, Reach, start, next, Reach-IsPlaced, Reach-count}
use go_port_forward.Codes.Devices.{DeviceOp, run_ops, keeps, all_keep, run_ops-exclusive}
use go_port_forward.Codes.Service.{Changed, save_secret}
use go_port_forward.Codes.Races.{save_secret-forgets_device}

-- 10.66.0.1/29
abbrev pool : Prefix
pool = record { addr = 172097537; bits = 29 }

abbrev gateway : Option ℕ
gateway = some 172097537

lowest : alloc_tun_ip (some pool) gateway (172097538 ∷ 172097540 ∷ []) ≡ done 172097539
unfolding alloc_tun_ip first_unused elem
lowest = refl

full :
    alloc_tun_ip
      (some pool)
      gateway
      (172097538 ∷ 172097539 ∷ 172097540 ∷ 172097541 ∷ 172097542 ∷ [])
    ≡ failed err_tun_pool_full
unfolding alloc_tun_ip first_unused elem
full = refl

lonely_host :
    alloc_tun_ip (some (record { addr = 172097537; bits = 32 })) none [] ≡ failed err_tun_pool_full
unfolding alloc_tun_ip first_unused elem
lonely_host = refl

alloc_tun_ip-least_example :
    ((a : ℕ)
      → alloc_tun_ip (some pool) gateway (172097538 ∷ []) ≡ done a
      → (masked pool < a)
        × (a < last_addr pool)
        × (is_free gateway (172097538 ∷ []) a ≡ true)
        × ((b : ℕ) → masked pool < b → b < a → is_free gateway (172097538 ∷ []) b ≡ false))
    × ((e : CodeError)
        → alloc_tun_ip (some pool) gateway (172097538 ∷ []) ≡ failed e
        → (e ≡ err_tun_pool_full)
          × ((b : ℕ)
              → masked pool < b
              → b < last_addr pool
              → is_free gateway (172097538 ∷ []) b ≡ false))
alloc_tun_ip-least_example = alloc_tun_ip-least pool gateway (172097538 ∷ [])

abbrev code : ℕ → AccessCode ℕ
code i = record {
  created_at = 1;
  updated_at = 0;
  id = i;
  user_id = 5;
  name = 30;
  tun_ip = none;
  secret = 77;
  disabled = false;
  device_fingerprint = 0;
  device_label = 0;
  bound_at = 0;
  last_seen_at = 0;
  last_seen_addr = 0;
}

abbrev one_code : Bucket ℕ
one_code = (1, stamped 172097538 10 (code 1)) ∷ []

abbrev two_codes : Bucket ℕ
two_codes = (2, stamped 172097539 20 (code 2)) ∷ one_code

abbrev bound_code : Bucket ℕ
bound_code =
    (1, bound 900 901 30 902 (stamped 172097538 10 (code 1)))
    ∷ (2, stamped 172097539 20 (code 2))
    ∷ []

first_created :
    create_access_code 0 (code 1) (some pool) gateway 2 10 []
    ≡ done (one_code, stamped 172097538 10 (code 1))
unfolding create_access_code place_code alloc_tun_ip first_unused elem used_ips count_codes insert
    remove
first_created = refl

second_created :
    create_access_code 0 (code 2) (some pool) gateway 2 20 one_code
    ≡ done (two_codes, stamped 172097539 20 (code 2))
unfolding create_access_code place_code alloc_tun_ip first_unused elem used_ips count_codes insert
    remove
second_created = refl

device_bound : bind_device 0 1 900 901 30 902 two_codes ≡ done bound_code
unfolding bind_device lookup insert remove
device_bound = refl

reached : Reach 0 pool gateway 2 bound_code
reached =
    next
      (next (next start (creates (code 1) (stamped 172097538 10 (code 1)) 10 refl first_created))
        (creates (code 2) (stamped 172097539 20 (code 2)) 20 refl second_created))
      (binds 1 900 901 30 902 device_bound)

Reach-IsPlaced_example : IsPlaced pool gateway bound_code
Reach-IsPlaced_example = Reach-IsPlaced 0 pool gateway 2 bound_code reached

Reach-count_example : count_codes 5 bound_code ≤ 2
Reach-count_example = Reach-count 0 pool gateway 2 bound_code 5 (omega arith) reached

abbrev ops : List (DeviceOp ℕ)
ops =
    DeviceOp.binds 1 800 801 40 802
    ∷ DeviceOp.touches 1 50 902
    ∷ DeviceOp.migrates 2 900 950 951 55 902
    ∷ []

run_ops-exclusive_example :
    bind_device 0 1 700 701 60 702 (run_ops 0 ops bound_code) ≡ failed err_device_mismatch
run_ops-exclusive_example =
    run_ops-exclusive 0 1 900 700 901 701 30 60 902 702 ops two_codes bound_code (λ e. omega arith)
      device_bound (unfold all_keep keeps in refl) (λ e. omega arith)

abbrev regenerated : Changed ℕ
regenerated = record {
  bucket =
      (1, record (stamped 172097538 10 (code 1)) { secret = 78; updated_at = 40 })
      ∷ (2, stamped 172097539 20 (code 2))
      ∷ [];
  code = record (stamped 172097538 10 (code 1)) { secret = 78; updated_at = 40 };
  evicts = some 1;
}

stale_save : save_secret 0 78 (stamped 172097538 10 (code 1)) 40 bound_code ≡ done regenerated
unfolding save_secret save_access_code lookup insert remove
stale_save = refl

save_secret-forgets_device_example :
    (r : Bucket ℕ) × (bind_device 0 1 700 701 60 702 regenerated.bucket ≡ done r)
save_secret-forgets_device_example =
    save_secret-forgets_device 0 900 700 901 701 78 30 60 40 902 702 two_codes bound_code
      (stamped 172097538 10 (code 1)) regenerated (unfold get_access_code lookup in refl) refl
      device_bound stale_save
