-- ===== src/Lib.antt =====
-- A model of innoextract-go, a library that reads the installers of Inno Setup.
--
-- `Open` parses an installer to a `format.Archive` (internal/loader finds the streams, internal/setup
-- decodes them, internal/gog completes the metadata of GOG installers), and `Extract` decodes the
-- files of an archive (internal/stream, with the ciphers and checksums of internal/crypto);
-- internal/pathutil makes the destinations safe. Errors carry the sentinels of internal/fault.
--
-- The modules, by the files that they model:
--   Fault       internal/fault/errors.go, and the error results of Go
--   Format      internal/format/types.go
--   Strings     the functions of packages strings, strconv, encoding/hex and fmt that the code uses
--   Crypto      internal/crypto/crypto.go: `Arc4`, `Checksums`, `Nonce` (XChaCha20), `Password`
--               (with `archiveKey` of internal/stream/stream.go)
--   PathUtil    internal/pathutil/path.go
--   Setup       internal/setup/setup.go: `Cursor` (its reads as parsers with a do notation), `Text`,
--               `Version`, `ReadVersion`, `Block` (`readBlock`), `Flags`, `Header`, `Entries`,
--               `PrimaryStream`, `Parse`; `DataEntries` writes data entries and `TextTrip` texts;
--               `Supported`, `Single`, `WholeStream` and `Streams` say what `Parse` accepts,
--               `Encrypted` when a header says that the archive is encrypted
--   Stream      internal/stream/slice.go: `Slice`; internal/stream/stream.go: `ReadAll`, `Chunk`
--               (`decodeChunk`), `Filter`, `Segment` (`decodeFileSegment`), `Budget`, `Assembly`, `Groups`
--               (`buildGroups`), `Extract`; `Groups.Partition` describes the groups
--   Loader      internal/loader/loader.go: `Table` (offset tables), `Resource` (the resources of an
--               executable), `Locate`; `Encode` writes a table, `Bounds` has the range of the offsets
--   Gog         internal/gog/gog.go: `Call` (`parseFunctionCall`), `Constraint`, `Parts`
--               (`applyGalaxyParts`), `Apply`; `Print` writes a call, `Slots` and `Kept` say what stays
--   Api         the package itself: `Settings` (options.go), `Archive` (archive.go, types.go and
--               extractor.go), `Errors` (errors.go); `Paths`, `Accounts` and `Opened` say what the
--               caller gets
--   Base        the shared helpers; Tests: runs at concrete inputs
-- A function keeps its name in snake case. What it changes through pointers is passed and returned.
--
-- Parameters, since they are other packages: the hash functions, PBKDF2 and chacha20 (`Primitives`),
-- zlib, bzip2 and LZMA (`Decoders`, `zlib`), CRC-32 of a block, and the readers that the caller
-- supplies (`ReaderAt`, `Provider`).
--
-- Loops without a structure to follow run on fuel: `Read` of a slice source on the slices and bytes
-- that are left, `readAllLimit` on the limit and two rounds, `expandConstants` on the length of the
-- string, `unwrapBlockChunks` on the length of the block, `io.ReadFull` and `io.ReadAll` on the
-- number of bytes asked for, which is enough for readers that give a byte or an error;
-- `parseFunctionCall` on the length of the code, `applyGalaxyParts` on the number of files, the
-- spaces that are trimmed on the length of the text, `strconv.Itoa` on the number plus one.
--
-- An `int` has 64 bits. Not modelled: the texts of errors that are wrapped (`Api.Errors` takes them as
-- an argument), and closing a decoder.
pub mod Base
pub mod Fault
pub mod Strings
pub mod Format
pub mod Crypto
pub mod Stream
pub mod Loader
pub mod Gog
pub mod Setup
pub mod PathUtil
pub mod Api
pub mod Tests
