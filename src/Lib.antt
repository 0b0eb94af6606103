-- ===== src/Lib.antt =====
-- libaacs reads the AACS files of a disc, derives its keys and decrypts the stream. Its parts and
-- their files:
--   * src/libaacs/mkb.c, the media key block: Mkb holds struct mkb and every accessor;
--     Mkb/Safety, Mkb/Lookup, Mkb/DataSize, Mkb/Revocation and Mkb/Dv hold the proofs.
--   * src/libaacs/unit_key.c, the unit key file: UnitKey holds struct aacs_uk and the parser
--     (uk_parse, _parse_header, _parse_uks, _assign_titles); UnitKey/Keys, UnitKey/Titles,
--     UnitKey/Parse and UnitKey/Few hold the proofs.
--   * src/libaacs/cci.c, copy control information: Cci, with the proofs in Cci/Bitcpy,
--     Cci/Safety, Cci/Overrun, Cci/Unencrypted and Cci/LostTitles.
--   * src/libaacs/content_cert.c, the content certificate: ContentCert.
--   * src/libaacs/aacs.c, the media key: MediaKey (_calc_v_mask, _calc_pk, _find_dk,
--     _calc_mk_dks, _calc_mk_pks, _validate_pk), which reads the records of Mkb; MediaKey/Masks,
--     MediaKey/ProcessingKey, MediaKey/Verified and MediaKey/ByDevices hold the proofs.
--   * src/libaacs/aacs.c, the stream: Stream (aacs_decrypt_unit, aacs_decrypt_bus,
--     aacs_select_title and what they call), on the keys and the title map of UnitKey;
--     Stream/Ready, Stream/Packets and Stream/Cleared hold proofs, Stream/RoundTrip and
--     Stream/Recovered those on a unit that was encrypted.
--   * src/libaacs/mmc.c, the drive: Mmc has the commands, Mmc/Auth the authentication and the
--     keys that are read after it, Mmc/Pack the media key block in packs, Mmc/Session and
--     Mmc/Accepted the proofs on a call of mmc_read_auth with any drive, Mmc/Exchange and
--     Mmc/Honest those with a drive that follows the protocol.
--   * src/libaacs/crypto.c: Crypto has AES-G3 and CMAC. src/libaacs/aacs.h: ErrorCode.
--     src/util/strutl.c: Hex. src/util/macro.h: Common/Bytes.
--   * src/file/file.c: Files, with the contents of files and directories by path.
--     src/file/keydbcfg.c: Cache has the key caches and saved data, Cache/Config the saved
--     configuration; Cache/RoundTrip, Cache/Saves and Cache/ConfigSaved hold proofs on them.
--     Keydb has the records of src/file/keydbcfg.h, Keydb/Files the files of keys and
--     certificates, Keydb/Distinct a proof.
--   * src/file/keydbcfg-parser.y, KEYDB.cfg: Keydb/Grammar has parser_state, the buffer of keys
--     and the entries of keys, Keydb/Grammar/Titles the entries of discs and
--     keydbcfg_parse_config; their other children hold the proofs. Keydb/Load has
--     keydbcfg_config_load of src/file/keydbcfg.c, with the directories of src/file/dirs_xdg.c
--     and the lists of src/file/keydb.h; Keydb/Load/Loaded, Keydb/Load/Sized and
--     Keydb/Load/Duplicates hold the proofs.
--   * src/libaacs/aacs.c, the file of the media key block: MkbFile (_read_mkb_file, _mkb_open),
--     with the proofs in MkbFile/Records.
--   * src/libaacs/aacs.c, the revocation lists: Rl (_rl_verify_signature, _save_rl, _update_rl,
--     _get_rl), between the block of Mkb and the files of Cache; Rl/Signed and Rl/Cached hold
--     the proofs.
--   * src/libaacs/aacs.c, the opening of a disc: Opening has struct aacs, _calc_mk,
--     _mmc_read_auth and what reads the volume id; Opening/UnitKeys has _calc_vuk,
--     _find_config_entry and _calc_uks, and the proofs in its children; Opening/MediaKeyOf has
--     the proof on _calc_mk; Opening/Device has aacs_open_device and the functions that the
--     player calls, and proofs in Opening/Device/Ready and Opening/Device/VidMac; Opening/Player
--     has aacs_open, aacs_open2, aacs_init and what may be called after them, with the proof in
--     Opening/Player/Ready. They combine all parts above.
--   * src/libaacs/crypto.c, signatures and key points: Ecdsa, and Ecdsa/Licensor with the keys
--     of the licensor; Ecdsa/Signed and Ecdsa/Agreement hold the proofs. Mmc/Auth takes these
--     functions as an interface, which Mmc/Honest fills with them.
--   * src/file/path.c: Path (aacs_resolve_path), with the proofs in Path/Ends, Path/Plain and
--     Path/Overrun. src/file/mmc_device_linux.c: Device, which resolves its path by Path, with
--     the proofs in Device/Opened.
--   * src/devtools/mkb_dump.c: MkbDump, with the proofs in MkbDump/Lists and MkbDump/Records.
-- The functions have the names of the source without a leading underscore. Common/Partial is about
-- what code gives if it returns. Common passes on the names of the library and of its child
-- modules, which all other modules share; each Examples module applies the theorems to concrete
-- inputs.
-- A C function is a function into Run: ok with its value, fault where the code reads or writes
-- outside of a buffer, uses a variable without a value or makes an undefined shift, stuck where
-- the fuel of a loop ends. Buffers are lists of bytes, pointers into them are offsets, NULL is
-- none, and wrap-around is written out. A drive is any function of the commands that were sent to
-- it. Allocation does not fail.
-- Fuel: the search of a record takes one round more than the size of the block, since each round
-- moves on by a byte or ends; mkb_data_size takes its fuel as an argument, since there are blocks
-- on which it does not end; _calc_v_mask takes 33 rounds, since 32 shifts clear the mask; _calc_pk
-- takes its fuel as an argument, and ends in as many rounds as the masks differ in bits, if at
-- all; the entries of a record are counted in one round for each byte; _read_mkb_file takes one
-- round more than the size of the file, since a round reads four bytes or more; the lines of a key
-- file take as many rounds as it has characters; a path takes 36000 rounds, since there are 33
-- components at most, each of which leaves a path below 1024 characters; the blocks of a printed
-- revocation list and the listed records take one round more than they have bytes; dump_record
-- takes its fuel as an argument. All other loops run over the numbers that they count.
-- Parameters: the block cipher and CBC decryption of libgcrypt, its hashes, numbers and
-- signatures, the multiplication of points in ec.c, the drive, the files of the disc, the
-- environment, the operating system (where it lets directories and files be made, how much it
-- writes, what links and mounts there are), and which reductions the parser of bison makes on a
-- file. The opening of a disc takes the configuration as an argument, and the signatures as an
-- interface. The device may be another one every time it is opened. A word in a file is written by
-- a little-endian machine.
-- Not modelled: the lexer of KEYDB.cfg and the tables of its parser, which are input and output of
-- flex and bison; arithmetic on elliptic curves, where ec.c is a copy of a file of libgcrypt;
-- access to files, and drives of other systems than Linux; logging, the other tools and build
-- files. These are input and output, generated code, or calls of libgcrypt.
pub mod Common
pub mod ErrorCode
pub mod Crypto
pub mod Mkb
pub mod UnitKey
pub mod Cci
pub mod ContentCert
pub mod MediaKey
pub mod Stream
pub mod Mmc
pub mod Hex
pub mod Files
pub mod Cache
pub mod MkbFile
pub mod Rl
pub mod Keydb
pub mod Opening
pub mod Ecdsa
pub mod Path
pub mod Device
pub mod MkbDump
