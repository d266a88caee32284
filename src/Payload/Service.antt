-- ===== src/Payload/Service.antt =====
-- crates/payload/src/builder.rs, `impl PayloadBuilder`: what reth's payload service calls.
use kx_reth.Prelude.{ℕ, Bool, Result, err}
use kx_reth.TxMapping.{TxMapping}
use kx_reth.Block.{SealedHeader}
use kx_reth.Block.Config.{Cells, InnerConfig}
use kx_reth.Attributes.{Codec, BuilderAttributes}
use kx_reth.Payload.{Builder, BuiltPayload, Outcome, kasplex_payload}

-- `MissingPayloadBehaviour`, the one that is chosen
pub data MissingPayloadBehaviour : Type 0 where
  await_in_progress : MissingPayloadBehaviour

-- `PayloadBuilderError`, the one that is made here
pub data EmptyPayloadError : Type 0 where
  missing_payload : EmptyPayloadError

module _ (codec : Codec) (builder : Builder codec.Recovered) where
  -- `try_build`
  unfoldable pub try_build :
      InnerConfig
      → SealedHeader
      → BuilderAttributes codec
      → (ℕ → Bool)
      → Cells
      → TxMapping
      → Outcome codec builder × Cells × TxMapping
  try_build inner parent attributes is_cancelled cells m =
      kasplex_payload codec builder inner parent attributes is_cancelled cells m

  -- `on_missing_payload`
  unfoldable pub on_missing_payload : BuilderAttributes codec → MissingPayloadBehaviour
  on_missing_payload attributes = await_in_progress

  -- `build_empty_payload`
  unfoldable pub build_empty_payload :
      SealedHeader → BuilderAttributes codec → Result EmptyPayloadError (BuiltPayload codec builder)
  build_empty_payload parent attributes = err missing_payload
