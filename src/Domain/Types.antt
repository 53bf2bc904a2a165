-- ===== src/Domain/Types.antt =====
-- The enumerations of src/domain.rs that the other parts share.
pub data ProviderId : Type 0 where
  abuseipdb virustotal : ProviderId

pub data IndicatorKind : Type 0 where
  ip url hash : IndicatorKind

pub data HashAlgorithm : Type 0 where
  md5 sha1 sha256 : HashAlgorithm

-- `Status::Ok` is `success` here.
pub data Status : Type 0 where
  success not_found unsupported disabled rate_limited timeout error : Status
