-- ===== src/Tests/Servers.antt =====
-- The registration of the methods on servers that are lists of their methods.
use kx_reth.Prelude.{
  ◌≡◌, refl, true, false, Bool, ◌&&◌, ◌||◌, Option, none, some, List, [], ◌∷◌, ◌++◌, arith, Result,
  ok, err, ==_self,
}
use kx_reth.Launch.{
  Method, kasplex_get_sync_mode, kasplex_auth_tx_pool_content,
  kasplex_auth_tx_pool_content_with_min_tip, kasplex_auth_send_raw_transaction,
  kasplex_auth_send_raw_transactions, other, name_index, same_name, RpcHost, is_auth_method,
  extend_rpc_modules, registered_methods,
}

abbrev has : Method → List Method → Bool
has x [] = false
has x (y ∷ m) = same_name y x || has x m

abbrev meets : List Method → List Method → Bool
meets [] s = false
meets (y ∷ m) s = has y s || meets m s

abbrev register : Method → List Method → Option (List Method)
register x m = elim (has x m) [ true ↦ none | false ↦ some (x ∷ m) ]

abbrev merge : List Method → List Method → Result (Unit {0}) (Unit {0}) × List Method
merge m s = elim (meets m s) [ true ↦ (err tt, s) | false ↦ (ok tt, m ++ s) ]

register_list :
    (x : Method) (m : List Method)
    → has x m ≡ false
    → (m' : List Method) × (register x m ≡ some m')
      × ((y : Method) → has y m' ≡ (same_name x y || has y m))
register_list x m free = (x ∷ m, ground (arith, free), λ y. refl)

has-++ : (x : Method) (m s : List Method) → has x (m ++ s) ≡ (has x m || has x s)
has-++ x [] s = refl
has-++ x (y ∷ m) s = ground (arith, has-++ x m s)

same_name_refl : (x : Method) → same_name x x ≡ true
unfolding same_name
same_name_refl x = ==_self (name_index x)

disjoint_lists :
    (m s : List Method) → ((x : Method) → (has x m && has x s) ≡ false) → meets m s ≡ false
disjoint_lists [] s apart = refl
disjoint_lists (y ∷ m) s apart =
    let rest = disjoint_lists m s (λ x. ground (arith, apart x)) in
    ground (arith, rest, apart y, same_name_refl y)

merge_list :
    (m s : List Method)
    → ((x : Method) → (has x m && has x s) ≡ false)
    → ((merge m s).0 ≡ ok tt) × ((x : Method) → has x (merge m s).1 ≡ (has x s || has x m))
merge_list m s apart =
    let free = disjoint_lists m s apart in
    (ground (arith, free), λ x. ground (arith, free, has-++ x m s))

abbrev list_host : RpcHost
list_host = record {
  RpcModule = List Method;
  Transports = List Method;
  AuthServer = List Method;
  MergeError = Unit;
  new = [];
  register_async_method = register;
  has = has;
  any_configured = λ s. true;
  serves = has;
  auth_serves = has;
  merge_configured = merge;
  merge_auth_methods = merge;
  new_lem = λ x. refl;
  register_lem = register_list;
  merge_configured_lem = merge_list;
  merge_auth_lem = merge_list;
}

engine_is_apart : (x : Method) → (is_auth_method x && has x (other 0 ∷ [])) ≡ false
unfolding is_auth_method same_name name_index
engine_is_apart kasplex_get_sync_mode = refl
engine_is_apart kasplex_auth_tx_pool_content = refl
engine_is_apart kasplex_auth_tx_pool_content_with_min_tip = refl
engine_is_apart kasplex_auth_send_raw_transaction = refl
engine_is_apart kasplex_auth_send_raw_transactions = refl
engine_is_apart (other n) = ground arith

registered_methods_example :
    (modules' : List Method) × (auth_module' : List Method) × (extend_rpc_modules list_host
        (other 1 ∷ [])
        (other 0 ∷ [])
      ≡ some (ok tt, modules', auth_module'))
    × ((x : Method) → has x modules' ≡ has x (other 1 ∷ []))
    × ((x : Method) → has x auth_module' ≡ (has x (other 0 ∷ []) || is_auth_method x))
registered_methods_example =
    registered_methods list_host (other 1 ∷ []) (other 0 ∷ []) engine_is_apart
