-- ===== src/Launch.antt =====
-- bin/kasplex-reth/src/main.rs, the closure that `extend_rpc_modules` is given, with the `into_rpc` of
-- crates/rpc/src/eth/{eth,auth}.rs that it calls: which methods the node's servers get. jsonrpsee's
-- `RpcModule` and the two merges of reth are the parameter `RpcHost`. The text of a method's name only
-- says whether two names are one, so `Method` has a constructor for each name of the code.
use kx_reth.Prelude.{
  ℕ, ◌+◌, ◌≡◌, false, Bool, ◌&&◌, ◌||◌, ◌==◌, ◌∙◌, Option, none, some, arith, Result, ok, err,
}

pub data Method : Type 0 where
  kasplex_get_sync_mode : Method
  kasplex_auth_tx_pool_content kasplex_auth_tx_pool_content_with_min_tip : Method
  kasplex_auth_send_raw_transaction kasplex_auth_send_raw_transactions : Method
  other : ℕ → Method

unfoldable pub name_index : Method → ℕ
name_index kasplex_get_sync_mode = 0
name_index kasplex_auth_tx_pool_content = 1
name_index kasplex_auth_tx_pool_content_with_min_tip = 2
name_index kasplex_auth_send_raw_transaction = 3
name_index kasplex_auth_send_raw_transactions = 4
name_index (other n) = n + 5

unfoldable pub same_name : Method → Method → Bool
same_name x y = name_index x == name_index y

pub record RpcHost : Type 1 where
  pub RpcModule : Type 0
  -- the transports of the public interface, and the server of the authenticated one
  pub Transports : Type 0
  pub AuthServer : Type 0
  pub MergeError : Type 0
  pub new : RpcModule
  -- `none` when the name is taken
  pub register_async_method : Method → RpcModule → Option RpcModule
  pub has : Method → RpcModule → Bool
  pub any_configured : Transports → Bool
  pub serves : Method → Transports → Bool
  pub auth_serves : Method → AuthServer → Bool
  pub merge_configured : RpcModule → Transports → Result MergeError (Unit {0}) × Transports
  pub merge_auth_methods : RpcModule → AuthServer → Result MergeError (Unit {0}) × AuthServer
  pub new_lem : (x : Method) → has x new ≡ false
  -- a name that is free is registered, and no other
  pub register_lem :
      (x : Method) (m : RpcModule)
      → has x m ≡ false
      → (m' : RpcModule) × (register_async_method x m ≡ some m')
        × ((y : Method) → has y m' ≡ (same_name x y || has y m))
  -- a merge without a name in common succeeds, and adds the methods
  pub merge_configured_lem :
      (m : RpcModule) (s : Transports)
      → ((x : Method) → (has x m && serves x s) ≡ false)
      → ((merge_configured m s).0 ≡ ok tt)
        × ((x : Method)
            → serves x (merge_configured m s).1 ≡ (serves x s || (any_configured s && has x m)))
  pub merge_auth_lem :
      (m : RpcModule) (s : AuthServer)
      → ((x : Method) → (has x m && auth_serves x s) ≡ false)
      → ((merge_auth_methods m s).0 ≡ ok tt)
        × ((x : Method) → auth_serves x (merge_auth_methods m s).1 ≡ (auth_serves x s || has x m))

-- the four methods of `kasplexAuth`
unfoldable pub is_auth_method : Method → Bool
is_auth_method x =
    same_name kasplex_auth_tx_pool_content x
    || (same_name kasplex_auth_tx_pool_content_with_min_tip x
        || (same_name kasplex_auth_send_raw_transaction x
            || same_name kasplex_auth_send_raw_transactions x))

module _ (host : RpcHost) where
  open host use {
    RpcModule, Transports, AuthServer, MergeError, new, register_async_method, has, serves,
    auth_serves, merge_configured, merge_auth_methods,
  }

  -- `KasplexExt::into_rpc`
  unfoldable pub kasplex_into_rpc : RpcModule
  kasplex_into_rpc = new

  -- `KasplexAuthExt::into_rpc`, whose `unwrap` of each registration panics: `none`
  unfoldable pub auth_into_rpc : Option RpcModule
  auth_into_rpc = elim (register_async_method kasplex_auth_tx_pool_content new) [
    | none ↦ none
    | some m1 ↦ elim (register_async_method kasplex_auth_tx_pool_content_with_min_tip m1) [
      | none ↦ none
      | some m2 ↦ elim (register_async_method kasplex_auth_send_raw_transaction m2) [
        | none ↦ none
        | some m3 ↦ register_async_method kasplex_auth_send_raw_transactions m3
      ]
    ]
  ]

  -- the closure: `none` when it panics, and the servers as it leaves them
  unfoldable pub extend_rpc_modules :
      Transports → AuthServer → Option (Result MergeError (Unit {0}) × Transports × AuthServer)
  extend_rpc_modules modules auth_module =
      let (merged, modules') = merge_configured kasplex_into_rpc modules in
      elim merged [
        | err e ↦ some (err e, modules', auth_module)
        | ok _ ↦ elim auth_into_rpc [
          | none ↦ none
          | some m ↦
              let (auth_merged, auth_module') = merge_auth_methods m auth_module in
              some (auth_merged, modules', auth_module')
        ]
      ]

  -- The registrations of `KasplexAuthExt::into_rpc` do not panic, and its module has exactly the four
  -- methods.
  auth_into_rpc_lem :
      (m : RpcModule) × (auth_into_rpc ≡ some m) × ((x : Method) → has x m ≡ is_auth_method x)
  unfolding auth_into_rpc is_auth_method same_name name_index
  auth_into_rpc_lem =
      let (m1, r1, h1) = host.register_lem kasplex_auth_tx_pool_content new (host.new_lem _) in
      let (m2, r2, h2) =
        host.register_lem kasplex_auth_tx_pool_content_with_min_tip m1 (h1 _ ∙ host.new_lem _) in
      let (m3, r3, h3) =
        host.register_lem kasplex_auth_send_raw_transaction m2 (h2 _ ∙ h1 _ ∙ host.new_lem _) in
      let (m4, r4, h4) =
        host.register_lem kasplex_auth_send_raw_transactions m3
          (h3 _ ∙ h2 _ ∙ h1 _ ∙ host.new_lem _) in
      (
        m4,
        ground (arith, r1, r2, r3, r4),
        λ x. ground (arith, h4 x, h3 x, h2 x, h1 x, host.new_lem x),
      )

  -- On an authenticated server that serves none of the four methods of `kasplexAuth` yet, the closure
  -- does not panic and succeeds. The public transports then serve exactly what they did before, so
  -- `kasplex_getSyncMode` is not added to them, and the authenticated server serves what it did and the
  -- four methods.
  pub registered_methods :
      (modules : Transports) (auth_module : AuthServer)
      → ((x : Method) → (is_auth_method x && auth_serves x auth_module) ≡ false)
      → (modules' : Transports) × (auth_module' : AuthServer) × (extend_rpc_modules modules
            auth_module
          ≡ some (ok tt, modules', auth_module'))
        × ((x : Method) → serves x modules' ≡ serves x modules)
        × ((x : Method)
            → auth_serves x auth_module' ≡ (auth_serves x auth_module || is_auth_method x))
  unfolding extend_rpc_modules kasplex_into_rpc
  registered_methods modules auth_module free =
      let (merged, served) =
        host.merge_configured_lem new modules (λ x. ground (arith, host.new_lem x)) in
      let (m, made, methods) = auth_into_rpc_lem in
      let (auth_merged, auth_served) =
        host.merge_auth_lem m auth_module (λ x. ground (arith, methods x, free x)) in
      (
        (merge_configured new modules).1,
        (merge_auth_methods m auth_module).1,
        ground (arith, merged, made, auth_merged),
        λ x. ground (arith, served x, host.new_lem x),
        λ x. ground (arith, auth_served x, methods x),
      )
