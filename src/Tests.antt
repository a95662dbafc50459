-- ===== src/Tests.antt =====
-- Concrete instances of the interfaces, runs of the model at the inputs of the repository's tests,
-- and the theorems applied to concrete inputs.
mod Models
mod CpuRuns
mod CpuExamples
mod WordModel
mod CudaExamples
mod CacheExamples
mod DeviceModel
mod AgreementExamples
mod ServiceExamples
mod SessionExamples
mod MineExamples
mod ListenerExamples
mod RpcModel
mod Connection
mod ApplicationExamples
mod CliExamples
mod CpuServiceExamples
mod CudaServiceExamples
