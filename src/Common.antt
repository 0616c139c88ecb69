-- ===== src/Common.antt =====
-- x/common/util.go: the product and quotient that the swap and farm modules share.
pub mod Exact
use okexchain.Base.{◌*◌, pos}
use okexchain.Sdk.{SdkDec, DecMath}

-- MulAndQuo, which says that it returns a * b / c. A division by zero panics in Go; the parameter
-- `quo_truncate` says nothing of it.
unfoldable pub mul_and_quo : DecMath → SdkDec → SdkDec → SdkDec → SdkDec
mul_and_quo m a b c =
    let auxiliary_dec = pos (m.unit * m.unit) in
    let scaled = m.mul_truncate a auxiliary_dec in
    m.quo_truncate (m.quo_truncate (m.mul_truncate scaled b) c) auxiliary_dec
